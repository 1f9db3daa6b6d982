-- ===== src/Store/Secrets/Names.antt =====
-- The names of secret versions (`ParseSecretVersionName` of internal/store/secrets.go).
use Prim.Native.Char.{Char, code}
use Prim.Native.String.append
use noctaxris_gcp.Base.{
  String, true, ◌≡◌, ◌≢◌, refl, sym, ap, ◌∙◌, Option, none, some, arith, concat, has_prefix,
  drop_prefix, has_prefix-append, drop_prefix-append, trim_space, if◌then◌else◌,
}
use noctaxris_gcp.Store.Numerals.{is_digit, all_digits}

abbrev pub versions_marker : String
versions_marker = "/versions/"

-- What stands before and after the last occurrence of `marker`: `i := strings.LastIndex(s, marker)`,
-- `s[:i]` and `s[i+len(marker):]`, and `none` where `i < 0`.
unfoldable pub split_last : String → String → Option (String × String)
split_last marker String.[] = none
split_last marker (String.◌∷◌ c s) =
    let rest = split_last marker s in
    elim rest [
      | some (a, b) ↦ some (String.◌∷◌ c a, b)
      | none ↦
          if has_prefix (String.◌∷◌ c s) marker
          then some ("", drop_prefix (String.◌∷◌ c s) marker)
          else none
    ]

unfoldable pub parse_secret_version_name : String → Option (String × String)
unfolding split_last
parse_secret_version_name name = split_last versions_marker (trim_space name)

-- The name that `AddSecretVersion` gives a version.
abbrev pub version_name : String → String → String
version_name secret_name version_id = concat secret_name (concat versions_marker version_id)

no_marker : (s : String) → all_digits s ≡ true → split_last versions_marker s ≡ none
unfolding all_digits split_last has_prefix is_digit
no_marker String.[] h = refl
no_marker (String.◌∷◌ c s) h = let rest = no_marker s (ground arith) in rw rest (ground arith)

concat-cons : (c : Char) (s t : String) → concat (String.◌∷◌ c s) t ≡ String.◌∷◌ c (concat s t)
concat-cons c s t = rw append.cons refl

concat-nil : (t : String) → concat "" t ≡ t
concat-nil t = rw append.nil refl

-- A character that is no slash before a text without the marker.
pass :
    (c : Char) (s t : String)
    → code c ≢ b'/'
    → split_last versions_marker (concat s t) ≡ none
    → split_last versions_marker (concat (String.◌∷◌ c s) t) ≡ none
unfolding split_last has_prefix
pass c s t n h = rw (concat-cons c s t, h, split_last) (ground arith)

pass_slash :
    (id : String) → all_digits id ≡ true → split_last versions_marker (String.◌∷◌ "/" id) ≡ none
unfolding split_last has_prefix all_digits is_digit
pass_slash String.[] h = refl
pass_slash (String.◌∷◌ c id) h =
    let rest : split_last versions_marker (String.◌∷◌ c id) ≡ none =
      no_marker (String.◌∷◌ c id) (unfold all_digits is_digit in h) in
    rw rest (ground arith)

tail_passed :
    (id : String) → all_digits id ≡ true → split_last versions_marker (concat "versions/" id) ≡ none
tail_passed id h =
    let last : split_last versions_marker (concat "/" id) ≡ none =
      rw (concat-cons "/" "" id, concat-nil id) (pass_slash id h) in
    pass "v" "ersions/" id (ground arith) (
      pass "e" "rsions/" id (ground arith) (
        pass "r" "sions/" id (ground arith) (
          pass "s" "ions/" id (ground arith) (
            pass "i" "ons/" id (ground arith) (
              pass "o" "ns/" id (ground arith)
                (pass "n" "s/" id (ground arith) (pass "s" "/" id (ground arith) last)))))))

marker_found :
    (id : String)
    → all_digits id ≡ true
    → split_last versions_marker (concat versions_marker id) ≡ some ("", id)
unfolding split_last
marker_found id h =
    let front : has_prefix (String.◌∷◌ "/" (concat "versions/" id)) versions_marker ≡ true =
      ap (λ (s : String). has_prefix s versions_marker) (sym (concat-cons "/" "versions/" id))
      ∙ has_prefix-append versions_marker id in
    let back : drop_prefix (String.◌∷◌ "/" (concat "versions/" id)) versions_marker ≡ id =
      ap (λ (s : String). drop_prefix s versions_marker) (sym (concat-cons "/" "versions/" id))
      ∙ drop_prefix-append versions_marker id in
    rw (concat-cons "/" "versions/" id, tail_passed id h, front, back, split_last) refl

-- The last marker of a version's name stands before the number.
pub split_last-version_name :
    (secret_name id : String)
    → all_digits id ≡ true
    → split_last versions_marker (version_name secret_name id) ≡ some (secret_name, id)
unfolding split_last
split_last-version_name String.[] id h =
    rw (concat-nil (concat versions_marker id)) (marker_found id h)
split_last-version_name (String.◌∷◌ c s) id h =
    rw (concat-cons c s (concat versions_marker id), split_last-version_name s id h, split_last)
      refl

-- A version's name is parsed into the name of its secret and its number, where it has no blanks at
-- its ends and the number is of digits.
pub parse_secret_version_name-version_name :
    (secret_name id : String)
    → all_digits id ≡ true
    → trim_space (version_name secret_name id) ≡ version_name secret_name id
    → parse_secret_version_name (version_name secret_name id) ≡ some (secret_name, id)
unfolding parse_secret_version_name
parse_secret_version_name-version_name secret_name id h t =
    ap (split_last versions_marker) t ∙ split_last-version_name secret_name id h
