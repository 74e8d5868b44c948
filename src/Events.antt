-- ===== src/Events.antt =====
-- portable/home-stack/admin/events.go: the audit log of the actions, a file of one JSON text per line.
pub mod Redact
pub mod Log
pub mod Growth
use home_stack.Prelude.{
  ℕ, zero, suc, Bool, true, false, ◌||◌, not, List, [], ◌∷◌, ◌++◌, Option, none, some, String, ◌==◌,
  ◌<>◌, Result, ok, err, if◌then◌else◌, ltb, length,
}
use home_stack.Prelude.Paths
use home_stack.Launchd.{Environment}
use home_stack.Events.Redact.{redact_output}

-- An event without its time and its duration.
pub record AdminEvent : Type 0 where
  pub id : String
  pub actor : String
  pub action : String
  pub target : String
  pub risk : String
  pub ok : Bool
  pub message : String
  pub details : String

-- `eventPath`, with the system's directory for temporary files.
unfoldable pub event_path : Environment → String → String
event_path getenv temp_dir =
    if not (getenv "HOME_STACK_CONFIG_DIR" == "")
    then Paths.join (getenv "HOME_STACK_CONFIG_DIR" ∷ "admin-events.jsonl" ∷ [])
    else if getenv "HOME" == ""
    then Paths.join (temp_dir ∷ "home-stack" ∷ "admin-events.jsonl" ∷ [])
    else Paths.join
        (Paths.join (getenv "HOME" ∷ ".config" ∷ "home-stack" ∷ []) ∷ "admin-events.jsonl" ∷ [])

-- The file at that path, where it can be opened: the lines that end with a newline, and what stands
-- after the last newline, which is empty unless a write was cut short.
pub data EventLog : Type 0 where
  absent : EventLog
  closed : EventLog
  lines : List String → String → EventLog

pub data EventError : Type 0 where
  not_opened : EventError
  not_marshalled : EventError
  not_appended : EventError
  line_too_long : EventError

-- The JSON library, whose texts hold no newline; whether the directory can be made and the file opened
-- and written; and how much of a text a write that fails puts into the file, which is always less than
-- the text with its newline.
pub record Journal : Type 0 where
  pub getenv : Environment
  pub marshal : AdminEvent → Option String
  pub unmarshal : String → Option AdminEvent
  pub can_open : Bool
  pub can_append : Bool
  pub torn : String → String
  pub too_long : String → Bool

abbrev pub redacted : Journal → AdminEvent → AdminEvent
redacted j evt = record evt { details = redact_output j.getenv evt.details }

-- What there is when the file is opened to append; it is made if it is not there.
abbrev pub opened : EventLog → Option (List String × String)
opened absent = some ([], "")
opened closed = none
opened (lines ls rest) = some (ls, rest)

unfoldable pub append_event :
    Journal → AdminEvent → EventLog → Result EventError (Unit {0}) × EventLog
append_event j evt log = if not j.can_open then (err not_opened, log) else elim (opened log) [
  | none ↦ (err not_opened, log)
  | some (ls, rest) ↦ elim (j.marshal (redacted j evt)) [
    | none ↦ (err not_marshalled, lines ls rest)
    | some text ↦
        if j.can_append
        then (ok tt, lines (ls ++ ((rest <> text) ∷ [])) "")
        else (err not_appended, lines ls (rest <> j.torn text))
  ]
]

-- The lines as the scanner gives them: the last one need not end with a newline.
abbrev pub scanned : List String → String → List String
scanned ls rest = if rest == "" then ls else ls ++ (rest ∷ [])

-- The loop of the scanner, which stops at a line that is longer than its buffer. A line that is no
-- event is passed over.
unfoldable pub scan : Journal → List String → Result EventError (List AdminEvent)
scan j [] = ok []
scan j (line ∷ rest) =
    let later = scan j rest in
    if j.too_long line then err line_too_long else elim later [
      | err e ↦ err e
      | ok events ↦ elim (j.unmarshal line) [
        | none ↦ ok events
        | some evt ↦ ok (redacted j evt ∷ events)
      ]
    ]

-- The loop that swaps from both ends.
unfoldable pub reverse : List AdminEvent → List AdminEvent
reverse [] = []
reverse (evt ∷ events) = reverse events ++ (evt ∷ [])

unfoldable pub take : ℕ → List AdminEvent → List AdminEvent
take n [] = []
take zero (evt ∷ events) = []
take (suc n) (evt ∷ events) = evt ∷ take n events

abbrev latest : ℕ → List AdminEvent → List AdminEvent
latest limit events = if ltb 0 limit then take limit (reverse events) else reverse events

unfoldable pub read_events : Journal → ℕ → EventLog → Result EventError (List AdminEvent)
read_events j limit absent = ok []
read_events j limit closed = err not_opened
read_events j limit (lines ls rest) = elim (scan j (scanned ls rest)) [
  | err e ↦ err e
  | ok events ↦ ok (latest limit events)
]
