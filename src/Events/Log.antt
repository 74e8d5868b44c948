-- ===== src/Events/Log.antt =====
-- events.go, `readEvents` after `appendEvent`.
use text.Mathlib.TextLemmas.{nil-append}
use home_stack.Prelude.{
  ℕ, suc, arith, true, false, ◌≡◌, refl, List, [], ◌∷◌, ◌++◌, some, String, ok, ok_inj, ltb,
  Bool-cases, Option-cases, Outcome-cases, inl, inr,
}
use home_stack.Events.Growth.{recorded, unfinished, append_event-last}
use home_stack.Events.{
  AdminEvent, EventLog, absent, closed, lines, Journal, redacted, append_event, scan, reverse, take,
  read_events,
}

reverse-append : (es : List AdminEvent) (e : AdminEvent) → reverse (es ++ (e ∷ [])) ≡ e ∷ reverse es
unfolding reverse
reverse-append [] e = refl
reverse-append (d ∷ es) e = rw (reverse-append es e) refl

positive : (n : ℕ) → ltb 0 (suc n) ≡ true
positive n = ground arith

module _ (j : Journal) (evt : AdminEvent) (text : String) (fits : j.too_long text ≡ false)
    (reads : j.unmarshal text ≡ some (redacted j evt)) where
  abbrev shown : AdminEvent
  shown = redacted j (redacted j evt)

  scan-append :
      (ls : List String) (es : List AdminEvent)
      → scan j ls ≡ ok es
      → scan j (ls ++ (text ∷ [])) ≡ ok (es ++ (shown ∷ []))
  unfolding scan
  scan-append [] es h = let e = ok_inj h in rw (fits, reads, scan, ← e) refl
  scan-append (l ∷ ls) es h = elim (Bool-cases (j.too_long l)) [
    | inl long ↦ absurd (cc (rw long at h))
    | inr short ↦ elim (Outcome-cases (scan j ls)) [
      | inr (e, failed) ↦ absurd (cc (rw (short, failed, scan) at h))
      | inl (later, done) ↦
          let next = scan-append ls later done in
          elim (Option-cases (j.unmarshal l)) [
            | inl noise ↦
                let same = ok_inj (rw (short, done, noise, scan) at h) in
                rw (short, next, scan, noise, same) refl
            | inr (e, found) ↦
                let same = ok_inj (rw (short, done, found, scan) at h) in
                rw (short, next, scan, found, ← same) refl
          ]
    ]
  ]

  read_events-lines :
      (n : ℕ) (ls : List String) (events : List AdminEvent)
      → read_events j 0 (lines ls "") ≡ ok events
      → read_events j (suc n) (lines (ls ++ (text ∷ [])) "") ≡ ok (shown ∷ take n events)
  unfolding read_events take
  read_events-lines n ls events h = elim (Outcome-cases (scan j ls)) [
    | inr (e, failed) ↦ absurd (cc (rw (failed, read_events) at h))
    | inl (es, done) ↦
        let same : reverse es ≡ events = ok_inj (rw (done, read_events) at h) in
        rw (scan-append ls es done, read_events, reverse-append, same, positive n) refl
  ]

-- A log that can be read and has no unfinished line reads as its lines do.
read_events-recorded :
    (j : Journal) (log : EventLog) (events : List AdminEvent)
    → unfinished log ≡ ""
    → read_events j 0 log ≡ ok events
    → read_events j 0 (lines (recorded log) "") ≡ ok events
unfolding read_events scan reverse
read_events-recorded j absent events ended before = before
read_events-recorded j closed events ended before = absurd (cc before)
read_events-recorded j (lines ls rest) events ended before = rw ended at before

-- Once an event is appended to a log that could be read and has no unfinished line, as a JSON text that
-- the scanner can hold and that the parser gives back, the log is read with that event first, redacted
-- once more, and after it the events that were read before, the newest first, as many as the limit
-- leaves room for.
pub read_events-append_event :
    (j : Journal) (evt : AdminEvent) (log log' : EventLog) (n : ℕ) (events : List AdminEvent)
    → ((text : String)
        → j.marshal (redacted j evt) ≡ some text
        → (j.too_long text ≡ false) × (j.unmarshal text ≡ some (redacted j evt)))
    → unfinished log ≡ ""
    → append_event j evt log ≡ (ok tt, log')
    → read_events j 0 log ≡ ok events
    → read_events j (suc n) log' ≡ ok (redacted j (redacted j evt) ∷ take n events)
read_events-append_event j evt log log' n events json ended done before =
    let (text, written, same) = append_event-last j evt log log' done in
    let (fits, reads) = json text written in
    rw (same, ended, nil-append)
      (read_events-lines j evt text fits reads n (recorded log) events
        (read_events-recorded j log events ended before))
