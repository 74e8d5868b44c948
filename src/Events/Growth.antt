-- ===== src/Events/Growth.antt =====
-- events.go, `appendEvent`: the log only grows.
use home_stack.Prelude.{
  ◌<>◌, ◌≡◌, refl, sym, ap, ◌∙◌, List, [], ◌∷◌, ◌++◌, some, String, ok, append-nil, append_assoc,
  Bool-cases, Option-cases, inl, inr,
}
use home_stack.Events.{
  AdminEvent, EventLog, absent, closed, lines, Journal, redacted, opened, append_event,
}

-- The lines of the file that end with a newline; there are none where it is not there or cannot be
-- opened.
abbrev pub recorded : EventLog → List String
recorded absent = []
recorded closed = []
recorded (lines ls rest) = ls

-- The line at its end that no newline ends.
abbrev pub unfinished : EventLog → String
unfinished absent = ""
unfinished closed = ""
unfinished (lines ls rest) = rest

-- The later log has the lines of the earlier one first.
abbrev pub IsExtended : EventLog → EventLog → Type 0
IsExtended before after = (more : List String) × (recorded after ≡ recorded before ++ more)

pub IsExtended-refl : (log : EventLog) → IsExtended log log
IsExtended-refl log = ([], sym (append-nil (recorded log)))

pub IsExtended-trans : (a b c : EventLog) → IsExtended a b → IsExtended b c → IsExtended a c
IsExtended-trans a b c (xs, hx) (ys, hy) =
    (xs ++ ys, hy ∙ ap (λ r. r ++ ys) hx ∙ append_assoc (recorded a) xs ys)

-- A line that the earlier log has stands in the later one.
pub IsExtended-line :
    (a b : EventLog) (before after : List String) (line : String)
    → IsExtended a b
    → recorded a ≡ before ++ (line ∷ after)
    → (rest : List String) × (recorded b ≡ before ++ (line ∷ rest))
IsExtended-line a b before after line (more, grown) here =
    (after ++ more, grown ∙ ap (λ r. r ++ more) here ∙ append_assoc before (line ∷ after) more)

module _ (j : Journal) (evt : AdminEvent) where
  written-IsExtended :
      (log : EventLog) (ls : List String) (rest : String)
      → opened log ≡ some (ls, rest)
      → recorded log ≡ ls
      → IsExtended log (append_event j evt log).1
  unfolding append_event
  written-IsExtended log ls rest there same = elim (Bool-cases j.can_open) [
    | inr shut ↦ rw (shut, append_event) (IsExtended-refl log)
    | inl opens ↦ elim (Option-cases (j.marshal (redacted j evt))) [
      | inl broken ↦
          rw (opens, append_event, there, append_event, broken, append_event)
            (([], rw same (sym (append-nil ls))))
      | inr (text, written) ↦ elim (Bool-cases j.can_append) [
        | inl goes ↦
            rw (opens, append_event, there, append_event, written, append_event, goes, same)
              (((rest <> text) ∷ [], refl))
        | inr stopped ↦
            rw (opens, append_event, there, append_event, written, append_event, stopped, same)
              (([], sym (append-nil ls)))
      ]
    ]
  ]

  -- Appending keeps every line that was there, also where the write is cut short.
  pub append_event-IsExtended : (log : EventLog) → IsExtended log (append_event j evt log).1
  unfolding append_event
  append_event-IsExtended absent = written-IsExtended absent [] "" refl refl
  append_event-IsExtended (lines ls rest) = written-IsExtended (lines ls rest) ls rest refl refl
  append_event-IsExtended closed = elim (Bool-cases j.can_open) [
    | inr shut ↦ simp shut (IsExtended-refl closed)
    | inl opens ↦ simp opens (IsExtended-refl closed)
  ]

last_line :
    (j : Journal) (evt : AdminEvent) (log log' : EventLog) (ls : List String) (rest : String)
    → opened log ≡ some (ls, rest)
    → append_event j evt log ≡ (ok tt, log')
    → (text : String) × (j.marshal (redacted j evt) ≡ some text)
      × (log' ≡ lines (ls ++ ((rest <> text) ∷ [])) "")
unfolding append_event
last_line j evt log log' ls rest there done = elim (Bool-cases j.can_open) [
  | inr shut ↦ absurd (cc (rw shut at done))
  | inl opens ↦ elim (Option-cases (j.marshal (redacted j evt))) [
    | inl broken ↦
        absurd (cc (rw (opens, append_event, there, append_event, broken, append_event) at done))
    | inr (text, written) ↦ elim (Bool-cases j.can_append) [
      | inr stopped ↦ absurd (
          cc
            (rw (opens, append_event, there, append_event, written, append_event, stopped) at done))
      | inl goes ↦ (
        text,
        written,
        sym (
            ap (λ r. r.1)
              (rw (opens, append_event, there, append_event, written, append_event, goes) at done)),
      )
    ]
  ]
]

-- Where the append succeeds, the event's text ends the line that was unfinished, which becomes the last
-- one, and no line is unfinished any more.
pub append_event-last :
    (j : Journal) (evt : AdminEvent) (log log' : EventLog)
    → append_event j evt log ≡ (ok tt, log')
    → (text : String) × (j.marshal (redacted j evt) ≡ some text)
      × (log' ≡ lines (recorded log ++ ((unfinished log <> text) ∷ [])) "")
unfolding append_event
append_event-last j evt closed log' done = elim (Bool-cases j.can_open) [
  | inr shut ↦ absurd (cc (rw shut at done))
  | inl opens ↦ absurd (cc (rw opens at done))
]
append_event-last j evt absent log' done = last_line j evt absent log' [] "" refl done
append_event-last j evt (lines ls rest) log' done =
    last_line j evt (lines ls rest) log' ls rest refl done
