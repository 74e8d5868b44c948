-- ===== src/Events/Redact/Bounds.antt =====
-- events.go, `redactOutput`: how long an output can be.
use Prim.Native.Char.{code}
use Prim.Native.String.{String}
use home_stack.Prelude.{
  ℕ, zero, suc, ◌-◌, ◌≤◌, ◌<◌, ◌≡◌, refl, codes, codes-append, length, length-append, ltb, arith,
  Bool-cases, inl, inr,
}
use home_stack.Events.Redact.{
  width, byte_length, strays, cut_bytes, cut_long, without_secrets, redact_output,
}

0<width : (c : ℕ) → 0 < width c
0<width c = ground arith

length-strays : (n : ℕ) → length (codes (strays n)) ≡ n
length-strays zero = refl
length-strays (suc n) = rw (codes-append, length-append) (omega (arith, length-strays n))

length-cut_bytes : (n : ℕ) (s : String) → length (codes (cut_bytes n s)) ≤ n
unfolding cut_bytes
length-cut_bytes n String.[] = omega arith
length-cut_bytes n (String.◌∷◌ c s) =
    ground (arith, length-cut_bytes (n - width (code c)) s, length-strays n, 0<width (code c))

length-byte_length : (s : String) → length (codes s) ≤ byte_length s
length-byte_length String.[] = omega arith
length-byte_length (String.◌∷◌ c s) = omega (arith, length-byte_length s, 0<width (code c))

-- An output is never longer than 801 characters: the 800 bytes kept, and the mark that it was cut.
pub length-redact_output :
    (getenv : String → String) (s : String) → length (codes (redact_output getenv s)) ≤ 801
unfolding redact_output
length-redact_output getenv s = bound (without_secrets getenv s)
  where
    bound : (t : String) → length (codes (cut_long t)) ≤ 801
    bound t = elim (Bool-cases (ltb 800 (byte_length t))) [
      | inl long ↦ rw (long, codes-append, length-append) (omega (arith, length-cut_bytes 800 t))
      | inr short ↦ rw short (ground (arith, length-byte_length t))
    ]
