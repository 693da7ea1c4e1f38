-- ===== src/Updates/Pins.antt =====
-- `readConst`, `writeConst`, `readDependency` and `writeDependency` of
-- scripts/update-apps/versions.ts: a pin is found by `/^(head)([^"]*)(")/m`, where the head is white
-- space and literals. A white space `\s*` runs over line ends too; the literal behind it begins
-- with no white space, so the regular expression engine has one way to match.
pub mod Heads
pub mod Search
pub mod Const
pub mod Edits
use jaritanet.Base.{
  ℕ, Bool, true, false, Option, none, some, List, [], ◌∷◌, ◌++◌, ◌==◌, not, if◌then◌else◌, ◌>>=◌,
  Text, codes, span, is_space, is_newline, strip_prefix,
}

abbrev pub quote : ℕ
quote = b'"'

abbrev pub not_quote : ℕ → Bool
not_quote c = not (c == quote)

-- A head: what it matches at the start of a text, and the rest.
abbrev pub Head : Type 0
Head = Text → Option (Text × Text)

-- The text before a match, its three groups (the third is a quote), and the text behind it.
pub record Match : Type 0 where
  pub pre : Text
  pub before : Text
  pub value : Text
  pub after : Text

close : Text → Text × Text → Option Match
close before (value, []) = none
close before (value, q ∷ after) =
    some (record { pre = []; before = before; value = value; after = after })

no_more : Match → Option Match → Option Match
no_more m none = some m
no_more m (some _) = none

abbrev pub one_on : ℕ → Match → Match
one_on c m = record m { pre = c ∷ m.pre }

module _ (head : Head) where
  -- A match at the start of the text.
  pub match_here : Text → Option Match
  unfolding close span
  match_here s = do (before, rest) ← head s; close before (span not_quote rest)

  -- The first match; `^` holds at the start, if the flag says so, and behind each line end.
  pub first_match : Bool → Text → Option Match
  unfolding match_here
  first_match at_start [] = if at_start then match_here [] else none
  first_match at_start (c ∷ s) =
      let later = first_match (is_newline c) s >>= (λ m. some (one_on c m)) in
      elim (if at_start then match_here (c ∷ s) else none) [ some m ↦ some m | none ↦ later ]

  -- The one match of the text, if it has exactly one. The second is looked for behind the first,
  -- which ends in a quote.
  only_match : Text → Option Match
  unfolding no_more first_match
  only_match s = do m ← first_match true s; no_more m (first_match false m.after)

  unfoldable pub read : Text → Option Text
  unfolding only_match
  read s = do m ← only_match s; some m.value

  unfoldable pub write : Text → Text → Option Text
  unfolding only_match
  write s value = do m ← only_match s; some (m.pre ++ (m.before ++ (value ++ quote ∷ m.after)))

-- `^(\s*key: ")`
unfoldable pub const_head : Text → Head
const_head key s =
    let (space, rest) = span is_space s in
    let name = key ++ codes ": \"" in
    (do after ← strip_prefix name rest; some (space ++ name, after))

unfoldable pub read_const : Text → Text → Option Text
unfolding read const_head strip_prefix
read_const source key = read (const_head key) source

unfoldable pub write_const : Text → Text → Text → Option Text
unfolding write const_head strip_prefix
write_const source key value = write (const_head key) source value

-- `^(\s*"pkg":\s*")`; the package name is escaped, so it matches itself.
unfoldable pub dependency_head : Text → Head
dependency_head pkg s =
    let (space, rest) = span is_space s in
    let name = quote ∷ (pkg ++ codes "\":") in
    (do
      after ← strip_prefix name rest
      let (gap, opened) = span is_space after
      value ← strip_prefix (quote ∷ []) opened
      some (space ++ (name ++ (gap ++ quote ∷ [])), value))

unfoldable pub read_dependency : Text → Text → Option Text
unfolding read dependency_head strip_prefix
read_dependency manifest pkg = read (dependency_head pkg) manifest

unfoldable pub write_dependency : Text → Text → Text → Option Text
unfolding write dependency_head strip_prefix
write_dependency manifest pkg value = write (dependency_head pkg) manifest value
