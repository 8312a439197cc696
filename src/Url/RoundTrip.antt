-- ===== src/Url/RoundTrip.antt =====
-- Quoting and then unquoting, and the bytes that quoted text is made of.
use golly.Base.{
  ℕ, ◌/◌, ◌%◌, ◌<◌, Bool, true, false, not, ◌&&◌, ◌⊎◌, inl, inr, [], ◌∷◌, ◌++◌, ◌≡◌, refl, ap, ◌∙◌,
  arith, Bytes, IsBytes, All, All-append, ◌==◌, ==_iff, leb, Bool-cases, ok, ◌>>=◌, map_ok, table,
  table-at,
}
use golly.Url.{
  ishex, join_hex, unplus, should_escape, should_escape_custom, is_one_of, escape_by, url_escape,
  url_escape_custom, url_unescape,
}
use golly.Url.Escape.{digit, word, words, Untouched, escape_by-words, escape_by_lem}
use golly.Url.Decode.{decode, decode_plain, decode_hex, url_unescape-decode}

hex_table :
    table 256 (λ c.
      (ishex (digit (c / 16)) && ishex (digit (c % 16)))
      && join_hex (digit (c / 16)) (digit (c % 16)) == c)
    ≡ true
unfolding table ishex join_hex
hex_table = refl

module _ (esc : ℕ → Bool) (p : Bool) (percent : esc b'%' ≡ true)
    (plus : p ≡ true → esc b'+' ≡ true) where
  decode-word :
      (c : ℕ) (r : Bytes)
      → c < 256
      → decode p (word esc p c ++ r) ≡ map_ok (λ t. c ∷ t) (decode p r)
  unfolding word unplus
  decode-word c r small =
      let h = table-at _ 256 c small hex_table in
      ground (
        arith,
        decode_plain p b'+' r,
        decode_hex p (digit (c / 16)) (digit (c % 16)) r,
        decode_plain p c r,
      )

  decode-words : (s : Bytes) → IsBytes s → decode p (words esc p s) ≡ ok s
  unfolding words decode
  decode-words [] b = refl
  decode-words (c ∷ s) (small, b) = rw (decode-word c (words esc p s) small, decode-words s b) refl

  not_percent : (c : ℕ) → esc c ≡ false → (c == b'%') ≡ false
  not_percent c e = elim (Bool-cases (c == b'%')) [
    | inl q ↦ cc (percent, ap esc ((==_iff c b'%').0 q))
    | inr q ↦ q
  ]

  unplus_same : (c : ℕ) → esc c ≡ false → unplus p c ≡ c
  unfolding unplus
  unplus_same c e = elim (Bool-cases (c == b'+')) [
    | inl q ↦ go ((==_iff c b'+').0 q) p refl
    | inr q ↦ rw q
  ]
    where
      go : c ≡ b'+' → (b : Bool) → p ≡ b → unplus p c ≡ c
      go q true pt = cc (plus pt, ap esc q)
      go q false pt = rw (q, pt)

  decode-Untouched : (s : Bytes) → Untouched esc p s → decode p s ≡ ok s
  decode-Untouched [] u = unfold decode in refl
  decode-Untouched (c ∷ s) (e, u) =
      rw (decode_plain p c s (not_percent c e), decode-Untouched s u, unplus_same c e) refl

  unescape-escape_by :
      (s : Bytes) → IsBytes s → (escape_by esc p s >>= λ t. url_unescape t p) ≡ ok s
  unescape-escape_by s b = elim (escape_by-words esc p s b) [
    | inl e ↦ rw e (url_unescape-decode (words esc p s) p ∙ decode-words s b)
    | inr e ↦ rw (e.0) (url_unescape-decode s p ∙ decode-Untouched s e.1)
  ]

-- A text quoted by `Quote` or `QuotePlus` is read back by `Unquote` or `UnquotePlus`.
pub url_unescape-url_escape :
    (p : Bool) (s : Bytes) → IsBytes s → (url_escape s p >>= λ t. url_unescape t p) ≡ ok s
unfolding url_escape should_escape
url_unescape-url_escape p s b = unescape-escape_by should_escape p refl (λ _. refl) s b

custom :
    (safe : Bytes) (c : ℕ)
    → is_one_of c safe ≡ false
    → leb c b',' ≡ true
    → should_escape_custom c safe ≡ true
unfolding should_escape_custom
custom safe c e h = rw (e, h)

-- A text quoted by `QuoteCustom` or `QuotePlusCustom` is read back, if `%` is not among the safe
-- bytes, and, where a space is quoted as `+`, if `+` is not among them.
pub url_unescape-url_escape_custom :
    (p : Bool) (safe s : Bytes)
    → is_one_of b'%' safe ≡ false
    → (p ≡ true → is_one_of b'+' safe ≡ false)
    → IsBytes s
    → (url_escape_custom s p safe >>= λ t. url_unescape t p) ≡ ok s
unfolding url_escape_custom
url_unescape-url_escape_custom p safe s h k b =
    unescape-escape_by (λ c. should_escape_custom c safe) p (custom safe b'%' h refl)
      (λ q. custom safe b'+' (k q) refl) s b

-- A byte that stands for itself, a plus sign where one is read as a space, or the start of an escape.
abbrev pub IsQuoted : Bool → ℕ → Type 0
IsQuoted p c = (should_escape c ≡ false) ⊎ (c ≡ b'%') ⊎ ((c ≡ b'+') × (p ≡ true))

digits_table : table 16 (λ d. not (should_escape (digit d))) ≡ true
unfolding table should_escape
digits_table = refl

word-IsQuoted : (p : Bool) (c : ℕ) → c < 256 → All (IsQuoted p) (word should_escape p c)
unfolding word
word-IsQuoted p c h =
    let hi = table-at _ 16 (c / 16) (omega arith) digits_table in
    let lo = table-at _ 16 (c % 16) (omega arith) digits_table in ground arith

-- What `Quote` and `QuotePlus` return is one word for each byte, and needs no escape itself: each
-- of its bytes is one that `shouldEscape` lets pass, a `%`, or in `QuotePlus` a `+`.
pub url_escape-IsQuoted :
    (p : Bool) (s : Bytes)
    → IsBytes s
    → (url_escape s p ≡ ok (words should_escape p s)) × All (IsQuoted p) (words should_escape p s)
unfolding url_escape should_escape words
url_escape-IsQuoted p s b = (escape_by_lem should_escape p refl s b, go s b)
  where
    go : (s : Bytes) → IsBytes s → All (IsQuoted p) (words should_escape p s)
    go [] b = tt
    go (c ∷ s) (h, b) =
        All-append (IsQuoted p) (word should_escape p c) _ (word-IsQuoted p c h) (go s b)
