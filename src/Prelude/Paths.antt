-- ===== src/Prelude/Paths.antt =====
-- Go's package path/filepath, as far as the program uses it: `Clean`, `Join`, `Dir`, `Base` and `Abs`
-- on Unix paths.
pub mod Shorter
use home_stack.Prelude.{
  ◌≡◌, refl, Bool, ◌||◌, List, [], ◌∷◌, String, ◌==◌, ◌<>◌, has_prefix, split, join as join_texts,
  if◌then◌else◌, eqb,
}
use Prim.Native.Char.{code}
use Prim.Native.String
use mathlib.Core.List.{reverse}

-- One element of a path; the stack of those kept has its top at the head.
abbrev pub back_up : Bool → List String → List String
back_up rooted [] = if rooted then [] else ".." ∷ []
back_up rooted (top ∷ stack) = if top == ".." then ".." ∷ top ∷ stack else stack

unfoldable pub resolve : Bool → List String → List String → List String
resolve rooted stack [] = reverse stack
resolve rooted stack (part ∷ parts) =
    resolve rooted
      (if part == "" || part == "."
        then stack
        else if part == ".."
        then back_up rooted stack
        else part ∷ stack)
      parts

unfoldable pub clean : String → String
unfolding resolve has_prefix split join_texts
clean path =
    let rooted = has_prefix path "/" in
    let kept = join_texts (resolve rooted [] (split path b'/')) "/" in
    if rooted then "/" <> kept else if kept == "" then "." else kept

abbrev drop_empty : List String → List String
drop_empty [] = []
drop_empty (e ∷ es) = let rest = drop_empty es in if e == "" then rest else e ∷ es

-- `filepath.Join`: the elements from the first that is not empty.
abbrev clean_all : List String → String
clean_all [] = ""
clean_all (e ∷ es) = clean (join_texts (e ∷ es) "/")

unfoldable pub join : List String → String
unfolding clean
join elems = clean_all (drop_empty elems)

join_tests :
    ◌≡◌ {A = List String}
      (join ("/a/b" ∷ "../c" ∷ "d" ∷ [])
        ∷ join ("" ∷ "x" ∷ "" ∷ [])
        ∷ join ("a" ∷ "../.." ∷ [])
        ∷ [])
      ("/a/c/d" ∷ "x" ∷ ".." ∷ [])
unfolding join
join_tests = refl

-- What stands before the last slash, with it.
unfoldable pub up_to_slash : String → String
up_to_slash String.[] = ""
up_to_slash (String.◌∷◌ c s) =
    let rest = up_to_slash s in
    if rest == "" then if eqb (code c) b'/' then String.◌∷◌ c "" else "" else String.◌∷◌ c rest

-- `filepath.Dir`.
unfoldable pub dir : String → String
dir path = clean (up_to_slash path)

abbrev last_filled : List String → String
last_filled [] = ""
last_filled (part ∷ parts) = let later = last_filled parts in if later == "" then part else later

-- `filepath.Base`: the last element that is not empty.
unfoldable pub base : String → String
unfolding split
base path =
    let last = last_filled (split path b'/') in
    if path == "" then "." else if last == "" then "/" else last

-- `filepath.Abs`, with the working directory.
unfoldable pub abs : String → String → String
unfolding clean join has_prefix
abs wd path = if has_prefix path "/" then clean path else join (wd ∷ path ∷ [])

dir_tests :
    ◌≡◌ {A = List String}
      (dir "/a/b" ∷ dir "/a/b/" ∷ dir "/a" ∷ dir "/" ∷ dir "a" ∷ dir "" ∷ dir "../.." ∷ [])
      ("/a" ∷ "/a/b" ∷ "/" ∷ "/" ∷ "." ∷ "." ∷ ".." ∷ [])
unfolding dir up_to_slash clean
dir_tests = refl

base_tests :
    ◌≡◌ {A = List String}
      (base "/a/b/" ∷ base "/" ∷ base "" ∷ base "a" ∷ [])
      ("b" ∷ "/" ∷ "." ∷ "a" ∷ [])
unfolding base
base_tests = refl
