-- ===== src/Plists.antt =====
-- portable/home-stack/admin/registry.go and engine.go, the launchd plists in one directory of the
-- bundle: their file names, the loop of `writeArtifacts`, `pruneStalePlists` and `diffPlists`.
pub mod Names
pub mod Prune
pub mod Again
pub mod Converge
use home_stack.Prelude.{
  ℕ, ◌+◌, Bool, true, false, ◌&&◌, ◌||◌, not, List, [], ◌∷◌, ◌++◌, Option, none, some, String, ◌==◌,
  ◌<>◌, Map, lookup, insert, erase, any, keys, has_prefix, has_suffix, trim_prefix, trim_suffix,
  if◌then◌else◌, Result, ok, err, ltb,
}

unfoldable pub agent_plist_filename : String → String → String
agent_plist_filename id_prefix name = id_prefix <> ".home-stack." <> name <> ".plist"

-- The pair of a name and `true` is `some`, that with `false` is `none`.
unfoldable pub plist_service_name : String → String → Option String
unfolding has_prefix has_suffix trim_prefix trim_suffix
plist_service_name id_prefix filename =
    let prefix = id_prefix <> ".home-stack." in
    if not (has_prefix filename prefix) || not (has_suffix filename ".plist")
    then none
    else some (trim_suffix (trim_prefix filename prefix) ".plist")

pub record DiffSection : Type 0 where
  pub added : ℕ
  pub removed : ℕ
  pub changed : ℕ
  pub lines : List String
  pub details : List String

abbrev pub empty_section : DiffSection
empty_section = record { added = 0; removed = 0; changed = 0; lines = []; details = [] }

-- `DiffSection.HasChanges`.
unfoldable pub has_changes : DiffSection → Bool
has_changes d = ltb 0 d.added || ltb 0 d.removed || ltb 0 d.changed

unfoldable pub merge_diff_sections : List DiffSection → DiffSection
merge_diff_sections [] = empty_section
merge_diff_sections (s ∷ rest) =
    let merged = merge_diff_sections rest in
    record {
      added = s.added + merged.added;
      removed = s.removed + merged.removed;
      changed = s.changed + merged.changed;
      lines = s.lines ++ merged.lines;
      details = s.details ++ merged.details;
    }

-- What a directory of the disk holds under a name.
pub data Node : Type 0 where
  file : String → Node
  folder : Node

abbrev pub Folder : Type 0
Folder = Map Node

abbrev content_of : Option Node → Option String
content_of none = none
content_of (some folder) = none
content_of (some (file c)) = some c

-- `os.ReadFile`, by the name in the directory.
unfoldable pub read_file : Folder → String → Option String
read_file dir f = content_of (lookup f dir)

abbrev is_folder : Option Node → Bool
is_folder none = false
is_folder (some folder) = true
is_folder (some (file c)) = false

-- The loop over the directory that fills `existingPathByName`: the file of each service's plist. A
-- later entry takes the place of an earlier one.
unfoldable pub existing_from : String → Folder → Map String → Map String
existing_from id_prefix [] found = found
existing_from id_prefix ((f, folder) ∷ dir) found = existing_from id_prefix dir found
existing_from id_prefix ((f, file c) ∷ dir) found =
    existing_from id_prefix dir
      (elim (plist_service_name id_prefix f) [ none ↦ found | some name ↦ insert name f found ])

unfoldable pub existing_by_name : String → Folder → Map String
existing_by_name id_prefix dir = existing_from id_prefix dir []

-- `err != nil || string(existingContent) != desiredContent`.
abbrev pub differs : Option String → String → Bool
differs none desired = true
differs (some c) desired = not (c == desired)

-- One round of the loop over the desired plists.
unfoldable pub compare_plist : Folder → Map String → String → String → DiffSection → DiffSection
compare_plist dir existing name desired d = elim (lookup name existing) [
  | none ↦ record d {
    added = d.added + 1;
    details = d.details ++ ("Would create plist for " <> name) ∷ [];
  }
  | some path ↦
      if differs (read_file dir path) desired
      then record d {
        changed = d.changed + 1;
        details = d.details ++ ("Would update plist for " <> name) ∷ [];
      }
      else d
]

unfoldable pub compare_plists : Folder → Map String → Map String → DiffSection → DiffSection
compare_plists dir existing [] d = d
compare_plists dir existing ((name, desired) ∷ rest) d =
    compare_plists dir existing rest (compare_plist dir existing name desired d)

unfoldable pub count_removed : Map String → Map String → DiffSection → DiffSection
count_removed desired [] d = d
count_removed desired ((name, path) ∷ rest) d = elim (lookup name desired) [
  | some c ↦ count_removed desired rest d
  | none ↦ count_removed desired rest (record d {
    removed = d.removed + 1;
    details = d.details ++ ("Would remove plist for " <> name) ∷ [];
  })
]

unfoldable pub diff_plists : Folder → String → Map String → DiffSection
diff_plists dir id_prefix desired =
    let existing = existing_by_name id_prefix dir in
    count_removed desired existing (compare_plists dir existing desired empty_section)

-- Whether `os.WriteFile` and `os.Remove` succeed on a name, where the directory allows it.
-- What comes of writing a file: all of it is written, or the write fails and leaves a text, which is
-- cut short, or the file cannot be opened and nothing is changed.
pub data Attempt : Type 0 where
  whole : Attempt
  torn : String → Attempt
  unopened : Attempt

abbrev pub is_whole : Attempt → Bool
is_whole whole = true
is_whole (torn text) = false
is_whole unopened = false

module _ (can_write : String → Attempt) (can_remove : String → Bool) where
  unfoldable pub write_file : String → String → Folder → Option Folder
  write_file f c dir =
      if not (is_whole (can_write f)) || is_folder (lookup f dir)
      then none
      else some (insert f (file c) dir)

  -- What a write that fails leaves of the folder.
  unfoldable pub left_by : String → Folder → Folder
  left_by f dir = if is_folder (lookup f dir) then dir else elim (can_write f) [
    | whole ↦ dir
    | torn text ↦ insert f (file text) dir
    | unopened ↦ dir
  ]

  -- Whether the loop of `pruneStalePlists` removes an entry, and the service that it then logs.
  unfoldable pub stale : String → List String → String → Node → Option String
  stale id_prefix desired f folder = none
  stale id_prefix desired f (file c) = elim (plist_service_name id_prefix f) [
    | none ↦ none
    | some name ↦
        if any (λ n. n == name) desired then none else if can_remove f then some name else none
  ]

  unfoldable pub prune_stale_plists : String → List String → Folder → List String × Folder
  prune_stale_plists id_prefix desired [] = ([], [])
  prune_stale_plists id_prefix desired ((f, node) ∷ dir) =
      let (logs, kept) = prune_stale_plists id_prefix desired dir in
      elim (stale id_prefix desired f node) [
        | none ↦ (logs, (f, node) ∷ kept)
        | some name ↦ (("Removed stale plist for " <> name) ∷ logs, kept)
      ]

-- The two loops of `writeArtifacts` name what they write in the same words but for this noun, "plist"
-- or "daemon plist".
module _ (can_write : String → Attempt) (can_remove : String → Bool) (noun : String) where
  -- The loop that writes the plists. What was written before a failure stays written.
  unfoldable pub write_plists :
      String → Map String → Folder → List String → Result String (List String) × Folder
  write_plists id_prefix [] dir logs = (ok logs, dir)
  write_plists id_prefix ((name, plist) ∷ rest) dir logs =
      elim (write_file can_write can_remove (agent_plist_filename id_prefix name) plist dir) [
        | none ↦ (
          err ("failed to write " <> noun <> " for " <> name),
          left_by can_write can_remove (agent_plist_filename id_prefix name) dir,
        )
        | some dir' ↦
            write_plists id_prefix rest dir'
              (logs ++ ("Generated " <> noun <> " for " <> name <> " in bundle") ∷ [])
      ]

  -- One directory's part of `writeArtifacts`: write what is desired, then prune.
  unfoldable pub write_and_prune :
      String → Map String → Folder → Result String (List String) × Folder
  write_and_prune id_prefix plists dir =
      let (written, dir') = write_plists id_prefix plists dir [] in
      elim written [
        | err e ↦ (err e, dir')
        | ok logs ↦
            let (pruned, dir'') =
              prune_stale_plists can_write can_remove id_prefix (keys plists) dir' in
            (ok (logs ++ pruned), dir'')
      ]
