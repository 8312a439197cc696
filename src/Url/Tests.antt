-- ===== src/Url/Tests.antt =====
-- Concrete runs of the quoting functions.
use golly.Base.{true, codes, All, ◌≡◌, refl, ok, err, ◌>>=◌, arith}
use golly.Url.{
  is_one_of, should_escape, url_escape, url_escape_custom, url_unescape, quote, quote_plus, unquote,
  unquote_plus,
}
use golly.Url.Decode.{decode, url_unescape-decode}
use golly.Url.Escape.{words}
use golly.Url.RoundTrip.{
  url_unescape-url_escape, url_unescape-url_escape_custom, IsQuoted, url_escape-IsQuoted,
}

quote_runs : quote (codes "a b/c?") ≡ ok (codes "a%20b/c%3f")
unfolding quote
quote_runs = refl

quote_plus_runs : quote_plus (codes "a b&") ≡ ok (codes "a+b%26")
unfolding quote_plus
quote_plus_runs = refl

unquote_runs : unquote_plus (codes "a+b%2f%2F") ≡ ok (codes "a b//")
unfolding unquote_plus
unquote_runs = refl

unquote_bad : unquote (codes "ab%2") ≡ err (codes "%2")
unfolding unquote
unquote_bad = refl

unquote_bad_digit : unquote (codes "%zzabc") ≡ err (codes "%zz")
unfolding unquote
unquote_bad_digit = refl

url_unescape-url_escape_example :
    (url_escape (codes "a b+%41/é") true >>= λ t. url_unescape t true) ≡ ok (codes "a b+%41/é")
url_unescape-url_escape_example = url_unescape-url_escape true (codes "a b+%41/é") (omega arith)

url_unescape-url_escape_custom_example :
    (url_escape_custom (codes "a /b") true (codes "/ ") >>= λ t. url_unescape t true)
    ≡ ok (codes "a /b")
url_unescape-url_escape_custom_example =
    url_unescape-url_escape_custom true (codes "/ ") (codes "a /b") (unfold is_one_of in refl)
      (λ _. unfold is_one_of in refl) (omega arith)

url_unescape-decode_example : url_unescape (codes "a%4") true ≡ decode true (codes "a%4")
url_unescape-decode_example = url_unescape-decode (codes "a%4") true

url_escape-IsQuoted_example :
    (url_escape (codes "a b?") true ≡ ok (words should_escape true (codes "a b?")))
    × All (IsQuoted true) (words should_escape true (codes "a b?"))
url_escape-IsQuoted_example = url_escape-IsQuoted true (codes "a b?") (omega arith)
