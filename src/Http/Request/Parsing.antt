-- ===== src/Http/Request/Parsing.antt =====
-- Which request lines are taken for which files.
use ti.Base.{
  ℕ, zero, suc, ◌+◌, ◌≡◌, refl, sym, ap, ◌∙◌, [], ◌∷◌, ◌++◌, append_assoc, append-nil, Option, none,
  some, arith, Bytes, codes, str_eq, str_eq_iff, length, take, drop, take-append-drop, Bool-cases,
  inl, inr,
}
use ti.Base.Text.{
  strchr, Lacks, Lacks-append, past, strchr-append, strchr-Lacks, FoundAt, strchr_lem,
}
use ti.Http.Request.{
  refused, wanted, default_uri, check_version, check_uri, check_method, check_line, parse,
}
use ti.Http.{status_501}

first_found : (c : ℕ) (text : Bytes) → strchr (c ∷ text) c ≡ some ([], c ∷ text)
unfolding strchr
first_found c text = ground arith

-- The first `c` behind a text without one.
strchr_behind :
    (front text : Bytes) (c : ℕ)
    → Lacks c front
    → strchr (front ++ c ∷ text) c ≡ some (front, c ∷ text)
strchr_behind front text c lacks =
    strchr-append front (c ∷ text) c lacks
    ∙ ap (past front) (first_found c text)
    ∙ ap (λ a. some (a, c ∷ text)) (append-nil front)

-- A request line with the method GET, a URI of any bytes but blanks, and the version.
abbrev pub get_line : Bytes → Bytes → Bytes
get_line uri tail = codes "GET /" ++ (uri ++ (codes " HTTP/1.0" ++ tail))

check_uri_lem :
    (uri tail : Bytes)
    → Lacks b' ' uri
    → check_uri (strchr (uri ++ (codes " HTTP/1.0" ++ tail)) b' ') ≡ wanted (default_uri uri)
unfolding check_uri strchr
check_uri_lem uri tail no_blank =
    ap check_uri (strchr_behind uri (codes "HTTP/1.0" ++ tail) b' ' no_blank)

-- A GET request for HTTP/1.0 is answered with the file between slash and blank, index.html if that
-- is empty, whatever stands between the version and the newline, or behind it.
pub parse-get_line :
    (uri tail behind : Bytes)
    → Lacks b' ' uri
    → Lacks b'\n' uri
    → Lacks b'\n' tail
    → parse (get_line uri tail ++ b'\n' ∷ behind) ≡ wanted (default_uri uri)
unfolding parse strchr
parse-get_line uri tail behind no_blank no_newline tail_line =
    ap check_line (strchr_behind (get_line uri tail) behind b'\n' in_line)
    ∙ ap (λ t. check_uri (strchr t b' '))
        (append_assoc uri (codes " HTTP/1.0" ++ tail) (b'\n' ∷ []))
    ∙ check_uri_lem uri (tail ++ b'\n' ∷ []) no_blank
  where
    in_line : Lacks b'\n' (get_line uri tail)
    in_line =
        Lacks-append b'\n' (codes "GET /") (uri ++ (codes " HTTP/1.0" ++ tail))
          (strchr-Lacks (codes "GET /") b'\n' refl)
          (Lacks-append b'\n' uri (codes " HTTP/1.0" ++ tail) no_newline (
            Lacks-append b'\n' (codes " HTTP/1.0") tail
              (strchr-Lacks (codes " HTTP/1.0") b'\n' refl) tail_line))

-- The text behind the slash of a request that was taken.
pub record IsUri (text uri : Bytes) : Type 0 where
  pub path : Bytes
  pub tail : Bytes
  pub shape : text ≡ path ++ (codes " HTTP/1.0" ++ tail)
  pub no_blank : Lacks b' ' path
  pub uri_is : uri ≡ default_uri path

wanted_version :
    (path version uri : Bytes) (found : Option (Bytes × Bytes))
    → check_version path version found ≡ wanted uri
    → (tail : Bytes) × (version ≡ codes "HTTP/1.0" ++ tail) × (uri ≡ default_uri path)
wanted_version path version uri none h = cc
wanted_version path version uri (some (major, dot)) h =
    elim (Bool-cases (str_eq (take (length major + 2) version) (codes "HTTP/1.0"))) [
      | inl same ↦ (
        drop (length major + 2) version,
        sym (take-append-drop (length major + 2) version)
            ∙ ap (λ t. t ++ drop (length major + 2) version)
                ((str_eq_iff (take (length major + 2) version) (codes "HTTP/1.0")).0 same),
        taken (rw same at h),
      )
      | inr other ↦ absurd (not_taken (rw other at h))
    ]
  where
    taken : wanted (default_uri path) ≡ wanted uri → uri ≡ default_uri path
    taken h = cc

    not_taken : refused status_501 ≡ wanted uri → ⊥
    not_taken h = cc

wanted-IsUri : (text uri : Bytes) → check_uri (strchr text b' ') ≡ wanted uri → IsUri text uri
unfolding check_uri
wanted-IsUri text uri h = go (strchr text b' ') (λ a b e. strchr_lem text b' ' e) h
  where
    go :
        (found : Option (Bytes × Bytes))
        → ((a b : Bytes) → found ≡ some (a, b) → FoundAt text b' ' a b)
        → check_uri found ≡ wanted uri
        → IsUri text uri
    go none place h = cc
    go (some (a, b)) place h =
        let at = place a b refl in
        let (tail, version_is, uri_is) =
          wanted_version a (drop 1 b) uri (strchr (drop 1 b) b'.') h in
        record {
          path = a;
          tail = tail;
          shape = at.whole ∙ ap (λ t. a ++ b' ' ∷ t) (sym (ap (drop 1) at.back_is) ∙ version_is);
          no_blank = at.first;
          uri_is = uri_is;
        }

-- A request line that was taken: GET, any byte, and a slash in front of the URI.
pub record IsGet (text uri : Bytes) : Type 0 where
  pub separator : ℕ
  pub behind_slash : Bytes
  pub shape : text ≡ codes "GET" ++ separator ∷ b'/' ∷ behind_slash
  pub is_uri : IsUri behind_slash uri

last_byte : (n : ℕ) (text : Bytes) → length text ≡ suc n → (c : ℕ) × (text ≡ take n text ++ c ∷ [])
last_byte n [] h = absurd (omega arith)
last_byte zero (c ∷ []) h = (c, refl)
last_byte zero (c ∷ d ∷ text) h = absurd (omega arith)
last_byte (suc n) (c ∷ text) h = let (d, e) = last_byte n text (omega arith) in (d, ap (◌∷◌ c) e)

wanted-IsGet : (text uri : Bytes) → check_method (strchr text b'/') ≡ wanted uri → IsGet text uri
unfolding check_method
wanted-IsGet text uri h = go (strchr text b'/') (λ a b e. strchr_lem text b'/' e) h
  where
    not_taken : refused status_501 ≡ wanted uri → ⊥
    not_taken h = cc

    go :
        (found : Option (Bytes × Bytes))
        → ((a b : Bytes) → found ≡ some (a, b) → FoundAt text b'/' a b)
        → check_method found ≡ wanted uri
        → IsGet text uri
    go none place h = cc
    go (some ([], b)) place h = cc
    go (some (c ∷ a, b)) place h =
        elim (Bool-cases (str_eq (take (length a) (c ∷ a)) (codes "GET"))) [
          | inr other ↦ absurd (not_taken (rw other at h))
          | inl same ↦
              let at = place (c ∷ a) b refl in
              let (separator, front_is) = last_byte (length a) (c ∷ a) refl in
              record {
                separator = separator;
                behind_slash = at.rest;
                shape =
                    at.whole
                    ∙ ap (λ f. f ++ b'/' ∷ at.rest)
                        (front_is
                          ∙ ap (λ m. m ++ separator ∷ [])
                              ((str_eq_iff (take (length a) (c ∷ a)) (codes "GET")).0 same));
                is_uri = wanted-IsUri at.rest uri (
                    ap (λ t. check_uri (strchr (drop 1 t) b' ')) (sym at.back_is) ∙ (rw same at h));
              }
        ]

-- Only such requests are taken: if a file is wanted, the text up to its first newline is the method
-- GET, one byte, a slash, a URI without blanks, a blank and the version HTTP/1.0, and perhaps more;
-- and the file is that of the URI.
pub parse-wanted :
    (text uri : Bytes)
    → parse text ≡ wanted uri
    → (request_line behind : Bytes) × (text ≡ request_line ++ b'\n' ∷ behind)
      × Lacks b'\n' request_line
      × IsGet (request_line ++ b'\n' ∷ []) uri
unfolding parse check_line
parse-wanted text uri h = go (strchr text b'\n') (λ a b e. strchr_lem text b'\n' e) h
  where
    go :
        (found : Option (Bytes × Bytes))
        → ((a b : Bytes) → found ≡ some (a, b) → FoundAt text b'\n' a b)
        → check_line found ≡ wanted uri
        → (request_line behind : Bytes) × (text ≡ request_line ++ b'\n' ∷ behind)
          × Lacks b'\n' request_line
          × IsGet (request_line ++ b'\n' ∷ []) uri
    go none place h = cc
    go (some (a, b)) place h =
        let at = place a b refl in
        (a, at.rest, at.whole, at.first, wanted-IsGet (a ++ b'\n' ∷ []) uri h)
