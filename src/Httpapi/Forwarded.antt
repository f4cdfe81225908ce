-- ===== src/Httpapi/Forwarded.antt =====
-- The original request, from the X-Forwarded headers of internal/httpapi/httpapi.go.
use forwardlimit.Common.{
  ◌≡◌, ◌≢◌, refl, true, false, Option, none, some, [], ◌∷◌, ◌++◌, if◌then◌else◌, ◌⊎◌, inl, inr,
  Option-cases, Bool-cases, arith,
}
use forwardlimit.Common.Text.{
  Text, codes, is_empty, cut_byte, cut_byte→append, cut_byte→Lacks, Lacks,
}
use forwardlimit.Request.{header_get}
use forwardlimit.Httpapi.{HttpRequest}

abbrev pub forwarded_uri : HttpRequest → Text
forwarded_uri r = header_get r.header (codes "X-Forwarded-Uri")

abbrev pub before_query : Text → Option (Text × Text) → Text
before_query uri none = uri
before_query uri (some (before, after)) = before

abbrev pub after_query : Option (Text × Text) → Text
after_query none = []
after_query (some (before, after)) = after

is_empty→eq : (s : Text) → is_empty s ≡ true → s ≡ []
is_empty→eq [] h = refl
is_empty→eq (c ∷ s) h = absurd (ground arith)

filled : (s : Text) → is_empty s ≡ false → s ≢ []
filled s h = λ e. ground arith

unfoldable pub original_path : HttpRequest → Text
unfolding cut_byte
original_path r =
    let uri = forwarded_uri r in
    if is_empty uri then r.url_path else before_query uri (cut_byte b'?' uri)

unfoldable pub original_query : HttpRequest → Text
unfolding cut_byte
original_query r =
    let uri = forwarded_uri r in
    if is_empty uri then r.url_raw_query else after_query (cut_byte b'?' uri)

unfoldable pub original_method : HttpRequest → Text
original_method r =
    let m = header_get r.header (codes "X-Forwarded-Method") in if is_empty m then r.method else m

-- Exactly one of two holds. There is no forwarded URI, or an empty one, and the path and the query are
-- those of the URL that was called. Or the URI is not empty, and they are the two sides of its first
-- question mark: the path holds none, and the two put together again are the URI; a URI without a
-- question mark is all path, with no query.
pub original_path-query :
    (r : HttpRequest)
    → ((forwarded_uri r ≡ [])
        × (original_path r ≡ r.url_path)
        × (original_query r ≡ r.url_raw_query))
      ⊎ ((forwarded_uri r ≢ [])
          × Lacks b'?' (original_path r)
          × (((original_path r ≡ forwarded_uri r) × (original_query r ≡ []))
              ⊎ (forwarded_uri r ≡ original_path r ++ (b'?' ∷ original_query r))))
unfolding original_path original_query
original_path-query r = elim (Bool-cases (is_empty (forwarded_uri r))) [
  | inl h ↦ rw h (inl (is_empty→eq (forwarded_uri r) h, refl, refl))
  | inr h ↦ elim (Option-cases (cut_byte b'?' (forwarded_uri r))) [
    | inl e ↦
        rw (h, e)
          (inr
            (filled (forwarded_uri r) h, cut_byte→Lacks b'?' (forwarded_uri r) e, inl (refl, refl)))
    | inr ((before, after), e) ↦
        let parts = cut_byte→append b'?' (forwarded_uri r) before after e in
        rw (h, e) (inr (filled (forwarded_uri r) h, parts.1, inr parts.0))
  ]
]
