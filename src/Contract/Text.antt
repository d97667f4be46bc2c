-- ===== src/Contract/Text.antt =====
-- The regular expressions and the test on texts of shared/execution.ts, on code points.
use Prim.Native.Char.{code}
use infinite_kanban.Prelude.{
  ℕ, ◌+◌, String, Bool, true, false, not, ◌&&◌, ◌||◌, Option, none, some, List, [], ◌∷◌, ◌==◌,
  nat_eq, leb, ltb, all, any, length, contains, if◌then◌else◌,
}

abbrev pub codes : String → List ℕ
codes String.[] = []
codes (String.◌∷◌ c s) = code c ∷ codes s

-- `\s`, which is also what `trim` removes.
unfoldable pub is_space : ℕ → Bool
is_space c =
    (leb 9 c && leb c 13)
    || ((leb 8192 c && leb c 8202)
        || contains (32 ∷ 160 ∷ 5760 ∷ 8232 ∷ 8233 ∷ 8239 ∷ 8287 ∷ 12288 ∷ 65279 ∷ []) c)

-- `[a-f0-9]`
unfoldable pub is_hex : ℕ → Bool
is_hex c = (leb b'0' c && leb c b'9') || (leb b'a' c && leb c b'f')

-- `[A-Za-z0-9_-]`
unfoldable pub is_word : ℕ → Bool
is_word c =
    (leb b'0' c && leb c b'9')
    || ((leb b'a' c && leb c b'z') || ((leb b'A' c && leb c b'Z') || (c == b'_' || c == b'-')))

-- `value.length`: UTF-16 code units.
unfoldable pub utf16_length : List ℕ → ℕ
utf16_length [] = 0
utf16_length (c ∷ cs) = (if ltb c 65536 then 1 else 2) + utf16_length cs

-- What follows a prefix.
unfoldable pub after : List ℕ → List ℕ → Option (List ℕ)
after [] cs = some cs
after (p ∷ ps) [] = none
after (p ∷ ps) (c ∷ cs) = if p == c then after ps cs else none

abbrev pub rest_meets : (List ℕ → Bool) → Option (List ℕ) → Bool
rest_meets test none = false
rest_meets test (some cs) = test cs

abbrev pub hex_of_length : ℕ → List ℕ → Bool
hex_of_length n cs = length cs == n && all is_hex cs

-- `[^\s]+`
abbrev pub unspaced : List ℕ → Bool
unspaced cs = not (length cs == 0) && all (λ c. not (is_space c)) cs

-- `typeof value === 'string' && value.trim() && value.length <= 100000`, of a string.
unfoldable pub is_text : String → Bool
unfolding is_space utf16_length
is_text s = any (λ c. not (is_space c)) (codes s) && leb (utf16_length (codes s)) 100000

unfoldable pub is_immutable_revision : String → Bool
unfolding is_hex after
is_immutable_revision s =
    let cs = codes s in
    hex_of_length 40 cs
    || (hex_of_length 64 cs || rest_meets (hex_of_length 64) (after (codes "sha256:") cs))

unfoldable pub is_assignment_id : String → Bool
unfolding is_word
is_assignment_id s =
    let cs = codes s in leb 1 (length cs) && (leb (length cs) 128 && all is_word cs)

unfoldable pub is_portable_repository : String → Bool
unfolding is_space after
is_portable_repository s =
    let cs = codes s in
    rest_meets unspaced (after (codes "https://") cs)
    || (rest_meets unspaced (after (codes "ssh://") cs)
        || rest_meets unspaced (after (codes "git@") cs))

unfoldable pub is_retrievable_artifact : String → Bool
unfolding is_space is_hex after
is_retrievable_artifact s =
    let cs = codes s in
    rest_meets (hex_of_length 64) (after (codes "urn:sha256:") cs)
    || rest_meets unspaced (after (codes "https://") cs)

-- `s.includes('://')`
unfoldable pub has_scheme : List ℕ → Bool
unfolding after
has_scheme [] = false
has_scheme (c ∷ cs) =
    let later = has_scheme cs in rest_meets (λ _. true) (after (codes "://") (c ∷ cs)) || later
