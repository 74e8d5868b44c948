-- ===== src/FileDiff.antt =====
-- portable/home-stack/admin/registry.go, `diffFiles`, `computeLineDiff` and `diffCatalog`: what the
-- preview of a deploy says of the Caddyfile and of the catalog.
pub mod Lines
pub mod Same
use home_stack.Prelude.{
  ℕ, ◌+◌, Bool, true, false, ◌||◌, not, List, [], ◌∷◌, ◌++◌, Option, none, some, String, ◌==◌, ◌<>◌,
  Map, lookup, length, split, has_prefix, if◌then◌else◌,
}
use home_stack.Prelude.Decimal.{decimal}
use home_stack.Plists.{DiffSection, empty_section}
use home_stack.Edits.{File, missing, unreadable, holds}
use home_stack.Registry.{Service}

-- One round of `computeLineDiff`'s loop.
abbrev pub line_change : String → String → List String
line_change old new =
    if old == new
    then []
    else (if old == "" then [] else ("-" <> old) ∷ [])
      ++ (if new == "" then [] else ("+" <> new) ∷ [])

-- The loop, to the length of the longer list, with "" for a line that is not there.
unfoldable pub changed_lines : List String → List String → List String
changed_lines [] [] = []
changed_lines [] (new ∷ news) = line_change "" new ++ changed_lines [] news
changed_lines (old ∷ olds) [] = line_change old "" ++ changed_lines olds []
changed_lines (old ∷ olds) (new ∷ news) = line_change old new ++ changed_lines olds news

-- The flag `hasDiff`.
unfoldable pub has_diff : List String → List String → Bool
has_diff [] [] = false
has_diff [] (new ∷ news) = not ("" == new) || has_diff [] news
has_diff (old ∷ olds) [] = not (old == "") || has_diff olds []
has_diff (old ∷ olds) (new ∷ news) = not (old == new) || has_diff olds news

unfoldable pub compute_line_diff : List String → List String → List String
compute_line_diff olds news =
    if has_diff olds news
    then changed_lines olds news
    else changed_lines olds news ++ (" (no changes)" ∷ [])

unfoldable pub prepend_prefix : List String → String → List String
prepend_prefix [] prefix = []
prepend_prefix (line ∷ lines) prefix = (prefix <> line) ∷ prepend_prefix lines prefix

-- The counts of the last loop of `diffFiles`.
unfoldable pub count_additions : List String → ℕ
count_additions [] = 0
count_additions (line ∷ lines) =
    let later = count_additions lines in if has_prefix line "+" then later + 1 else later

unfoldable pub count_removals : List String → ℕ
count_removals [] = 0
count_removals (line ∷ lines) =
    let later = count_removals lines in
    if has_prefix line "+" then later else if has_prefix line "-" then later + 1 else later

abbrev pub changes : List String → DiffSection
changes lines = record {
  added = count_additions lines;
  removed = count_removals lines;
  changed = 0;
  lines = lines;
  details =
      (decimal (count_additions lines)
        <> " additions, "
        <> decimal (count_removals lines)
        <> " removals")
      ∷ [];
}

-- `diffFiles`, with the last element of the path. The detail of an error that is printed is left out.
unfoldable pub diff_files : String → File → String → DiffSection
diff_files base missing desired = record {
  added = length (split desired b'\n');
  removed = 0;
  changed = 0;
  lines = prepend_prefix (split desired b'\n') "+";
  details = ("File " <> base <> " would be created") ∷ [];
}
diff_files base unreadable desired = record empty_section {
  details = ("Error reading " <> base) ∷ [];
}
diff_files base (holds existing) desired =
    if existing == desired
    then record empty_section { details = "No changes" ∷ [] }
    else changes (compute_line_diff (split existing b'\n') (split desired b'\n'))

-- The names of the first catalog that the second lacks.
unfoldable pub lacking : Map Service → Map Service → List String
lacking [] other = []
lacking ((name, svc) ∷ rest) other = elim (lookup name other) [
  | none ↦ name ∷ lacking rest other
  | some found ↦ lacking rest other
]

abbrev describe : String → String → List String → List String
describe before after [] = []
describe before after (name ∷ names) = (before <> name <> after) ∷ describe before after names

-- `diffCatalog`. `unmarshal` is the JSON library's.
module _ (unmarshal : String → Option (Map Service)) where
  unfoldable pub diff_catalog : File → Map Service → DiffSection
  diff_catalog missing desired = record empty_section {
    added = length desired;
    details = describe "Would add " " to catalog" (lacking desired []);
  }
  diff_catalog unreadable desired = record empty_section { details = "Error reading catalog" ∷ [] }
  diff_catalog (holds text) desired = elim (unmarshal text) [
    | none ↦ record empty_section {
      changed = length desired;
      details = "Catalog exists but is not valid JSON — would regenerate" ∷ [];
    }
    | some existing ↦ record empty_section {
      added = length (lacking desired existing);
      removed = length (lacking existing desired);
      details =
          describe "Would add " " to catalog" (lacking desired existing)
          ++ describe "Would remove " " from catalog" (lacking existing desired);
    }
  ]
