-- ===== src/UseCases/Device/UserCode.antt =====
-- oauth2/domain/device_authorization.go: GenerateUserCode, and the way back by NormalizeUserCode.
use Prim.Native.Char.{Char}
use Prim.Native.String.{String}
use regenerative_architectur.Base.{
  ℕ, zero, suc, ◌<◌, ◌≤◌, ◌≡◌, refl, ap, ◌∙◌, Option, none, some, length, All, List, [], ◌∷◌, Bool,
  true, ◌&&◌, arith,
}
use regenerative_architectur.UseCases.Ports.{Ports}
use regenerative_architectur.UseCases.Device.Domain.{
  is_index_char, keep_index_chars, normalize_user_code,
}

-- userCodeCharset
abbrev pub charset : String
charset = "BCDFGHJKLMNPQRSTVWXZ"

-- `s[n]`; `none` where Go panics.
unfoldable pub char_at : String → ℕ → Option Char
char_at String.[] n = none
char_at (String.◌∷◌ c s) zero = some c
char_at (String.◌∷◌ c s) (suc n) = char_at s n

abbrev write : Option Char → Option String → Option String
write none s = none
write (some c) none = none
write (some c) (some s) = some (String.◌∷◌ c s)

-- The loop: one byte of the charset for each draw of `rand.Int`.
unfoldable pub raw_user_code : List ℕ → Option String
raw_user_code [] = some String.[]
raw_user_code (n ∷ ns) = write (char_at charset n) (raw_user_code ns)

-- `s[:n] + "-" + s[n:]`; `none` where Go panics.
unfoldable pub dash_at : ℕ → String → Option String
dash_at zero s = some (String.◌∷◌ "-" s)
dash_at (suc n) String.[] = none
dash_at (suc n) (String.◌∷◌ c s) = write (some c) (dash_at n s)

abbrev dash_in : Option String → Option String
dash_in none = none
dash_in (some s) = dash_at 4 s

-- The user code of eight draws.
unfoldable pub generate_user_code : List ℕ → Option String
unfolding raw_user_code dash_at char_at
generate_user_code draws = dash_in (raw_user_code draws)

abbrev all_kept : String → Bool
all_kept String.[] = true
all_kept (String.◌∷◌ c s) = is_index_char c && all_kept s

abbrev text_length : String → ℕ
text_length String.[] = 0
text_length (String.◌∷◌ c s) = suc (text_length s)

char_at-kept :
    (s : String) (n : ℕ)
    → all_kept s ≡ true
    → n < text_length s
    → (c : Char) × (char_at s n ≡ some c) × (is_index_char c ≡ true)
unfolding char_at
char_at-kept String.[] n k h = absurd (ground arith)
char_at-kept (String.◌∷◌ c s) zero k h = (c, refl, ground arith)
char_at-kept (String.◌∷◌ c s) (suc n) k h = char_at-kept s n (ground arith) (ground arith)

kept_end : keep_index_chars String.[] ≡ String.[]
unfolding keep_index_chars
kept_end = refl

-- What NormalizeUserCode makes of a text with a dash in it, at each place up to the n-th.
abbrev Dashes : ℕ → String → Type 0
Dashes n raw =
    (k : ℕ) → k < suc n → (s : String) × (dash_at k raw ≡ some s) × (keep_index_chars s ≡ raw)

keep-dash : (s : String) → keep_index_chars (String.◌∷◌ "-" s) ≡ keep_index_chars s
unfolding keep_index_chars
keep-dash s = refl

keep-kept :
    (c : Char) (s : String)
    → is_index_char c ≡ true
    → keep_index_chars (String.◌∷◌ c s) ≡ String.◌∷◌ c (keep_index_chars s)
unfolding keep_index_chars
keep-kept c s h = rw h refl

Dashes-letter :
    (n : ℕ) (c : Char) (raw : String)
    → is_index_char c ≡ true
    → keep_index_chars raw ≡ raw
    → Dashes n raw
    → Dashes (suc n) (String.◌∷◌ c raw)
unfolding dash_at
Dashes-letter n c raw kept whole dashes zero h = (
  String.◌∷◌ "-" (String.◌∷◌ c raw),
  refl,
  keep-dash _ ∙ keep-kept c raw kept ∙ ap (String.◌∷◌ c) whole,
)
Dashes-letter n c raw kept whole dashes (suc k) h =
    let (s, at, back) = dashes k (ground arith) in
    (String.◌∷◌ c s, rw at refl, keep-kept c s kept ∙ ap (String.◌∷◌ c) back)

Dashes-end : Dashes 0 String.[]
unfolding dash_at
Dashes-end zero h = (String.◌∷◌ "-" String.[], refl, keep-dash String.[] ∙ kept_end)
Dashes-end (suc k) h = absurd (ground arith)

-- Draws below 20 make a text that NormalizeUserCode keeps whole, with a dash in it or without.
raw_user_code-kept :
    (ns : List ℕ)
    → All (λ n. n < 20) ns
    → (raw : String) × (raw_user_code ns ≡ some raw)
      × (keep_index_chars raw ≡ raw)
      × Dashes (length ns) raw
unfolding raw_user_code
raw_user_code-kept [] h = (String.[], refl, kept_end, Dashes-end)
raw_user_code-kept (n ∷ ns) (small, rest) =
    let (c, at, kept) = char_at-kept charset n refl small in
    let (raw, code, whole, dashes) = raw_user_code-kept ns rest in
    (
      String.◌∷◌ c raw,
      rw at (rw code refl),
      keep-kept c raw kept ∙ ap (String.◌∷◌ c) whole,
      Dashes-letter (length ns) c raw kept whole dashes,
    )

-- The user code of draws of the charset, as it is shown with its dash, is normalized to the letters that
-- were drawn, so the record that is stored under them is found by what the user types. There are at least
-- four draws, each is below the size of the charset, and upper case leaves the code as it is.
pub normalize-generate :
    (d : Ports) (draws : List ℕ)
    → All (λ n. n < 20) draws
    → 4 ≤ length draws
    → ((s : String) → generate_user_code draws ≡ some s → d.to_upper s ≡ s)
    → (raw : String) × (shown : String) × (raw_user_code draws ≡ some raw)
      × (generate_user_code draws ≡ some shown)
      × (normalize_user_code d shown ≡ raw)
unfolding generate_user_code normalize_user_code
normalize-generate d draws small enough upper =
    let (raw, code, whole, dashes) = raw_user_code-kept draws small in
    let (shown, at, back) = dashes 4 (ground arith) in
    let generated : generate_user_code draws ≡ some shown = rw code at in
    (raw, shown, code, generated, rw (upper shown generated) back)
