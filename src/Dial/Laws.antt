-- ===== src/Dial/Laws.antt =====
-- What Dial returns, for every URL and whatever the network does.
use wlgows.Base.{
  ◌≡◌, refl, ap, subst, sym, ◌≢◌, ◌⊎◌, inl, inr, true, false, ◌||◌, Option, none, some, [], ◌∷◌,
  arith, Bool-cases,
}
use wlgows.Base.Bytes.{Bytes}
use wlgows.Errors.{Error, Result, ok, err}
use wlgows.Http.{Url, Request}
use wlgows.Http.Text.{codes, same}
use wlgows.Http.Fields.{same-eq}
use wlgows.HandShake.Respond.{is_empty}
use wlgows.Dial.{
  contains, schemes, validate_websocket_url, Dialer, connected, connect, connect_valid,
  dial_request, dial,
}

abbrev pub IsPlain : Bytes → Type 0
IsPlain scheme = (scheme ≡ codes "http") ⊎ (scheme ≡ codes "ws")

abbrev pub IsSecure : Bytes → Type 0
IsSecure scheme = (scheme ≡ codes "https") ⊎ (scheme ≡ codes "wss")

scheme_cases : (s : Bytes) → contains schemes s ≡ true → IsPlain s ⊎ IsSecure s
unfolding contains
scheme_cases s h = elim (Bool-cases (same (codes "http") s)) [
  | inl is_http ↦ inl (inl (sym (same-eq _ s is_http)))
  | inr a ↦ elim (Bool-cases (same (codes "https") s)) [
    | inl is_https ↦ inr (inl (sym (same-eq _ s is_https)))
    | inr b ↦ elim (Bool-cases (same (codes "ws") s)) [
      | inl is_ws ↦ inl (inr (sym (same-eq _ s is_ws)))
      | inr c ↦ inr (inr (sym (same-eq _ s (ground arith))))
    ]
  ]
]

is_empty-ne-nil : (s : Bytes) → is_empty s ≡ false → s ≢ []
is_empty-ne-nil [] h e = cc
is_empty-ne-nil (c ∷ s) h e = cc

-- A URL that passes has one of the four schemes, and a host.
validate_websocket_url-eq-none :
    (u : Url)
    → validate_websocket_url u ≡ none
    → (IsPlain u.scheme ⊎ IsSecure u.scheme) × (u.host ≢ [])
unfolding validate_websocket_url
validate_websocket_url-eq-none u h =
    (scheme_cases u.scheme (ground arith), is_empty-ne-nil u.host (ground arith))

plain_test : (s : Bytes) → IsPlain s → (same s (codes "http") || same s (codes "ws")) ≡ true
unfolding same
plain_test s (inl e) = rw e refl
plain_test s (inr e) = rw e refl

secure_tests :
    (s : Bytes)
    → IsSecure s
    → ((same s (codes "http") || same s (codes "ws")) ≡ false)
      × ((same s (codes "https") || same s (codes "wss")) ≡ true)
unfolding same
secure_tests s (inl e) = rw e (refl, refl)
secure_tests s (inr e) = rw e (refl, refl)

module _ {C K : Type 0} (d : Dialer C K) where
  -- The connection that a scheme asks for.
  abbrev pub Connects : K → Request → C → Type 0
  Connects config req c =
      (IsPlain req.url.scheme × (d.net_dial (codes "tcp") req.url.host ≡ ok c))
      ⊎ (IsSecure req.url.scheme × (d.tls_dial (codes "tcp") req.url.host config ≡ ok c))

  connected-ok :
      (r : Result C) (old : Request) {conn : Option C} {req : Request}
      → connected d r old ≡ ok (conn, req)
      → (old ≡ req) × (c : C) × (conn ≡ some c) × (r ≡ ok c)
  connected-ok (ok c) old h = (cc, c, cc, refl)
  connected-ok (err e) old h = let impossible : ⊥ = cc in absurd impossible

  connect-ok :
      (config : K) (old : Request) {conn : Option C} {req : Request}
      → IsPlain old.url.scheme ⊎ IsSecure old.url.scheme
      → connect d config old ≡ ok (conn, req)
      → (old ≡ req) × (c : C) × (conn ≡ some c) × Connects config old c
  unfolding connect
  connect-ok config old (inl plain) h =
      let (same_req, c, some_c, dialled) =
        connected-ok (d.net_dial (codes "tcp") old.url.host) old
          (rw (plain_test old.url.scheme plain) at h) in
      (same_req, c, some_c, inl (plain, dialled))
  connect-ok config old (inr secure) h =
      let (not_plain, is_secure) = secure_tests old.url.scheme secure in
      let (same_req, c, some_c, dialled) =
        connected-ok (d.tls_dial (codes "tcp") old.url.host config) old
          (rw (not_plain, is_secure) at h) in
      (same_req, c, some_c, inr (secure, dialled))

  connect_valid-ok :
      (config : K) (old : Request) (invalid : Option Error) {conn : Option C} {req : Request}
      → validate_websocket_url old.url ≡ invalid
      → connect_valid d invalid config old ≡ ok (conn, req)
      → (old ≡ req) × (old.url.host ≢ []) × (c : C) × (conn ≡ some c) × Connects config old c
  unfolding connect_valid
  connect_valid-ok config old (some e) v h = let impossible : ⊥ = cc in absurd impossible
  connect_valid-ok config old none v h =
      let (scheme, host) = validate_websocket_url-eq-none old.url v in
      let (same_req, c, some_c, connects) = connect-ok config old scheme h in
      (same_req, host, c, some_c, connects)

  dial_request-ok :
      (config : K) (r : Result Request) {conn : Option C} {req : Request}
      → dial_request d r config ≡ ok (conn, req)
      → (r ≡ ok req) × (req.url.host ≢ []) × (c : C) × (conn ≡ some c) × Connects config req c
  unfolding dial_request
  dial_request-ok config (err e) h = let impossible : ⊥ = cc in absurd impossible
  dial_request-ok config (ok old) {conn} {req} h =
      let (same_req, host, c, some_c, connects) = connect_valid-ok config old _ refl h in
      (
        ap ok same_req,
        subst (λ (q : Request). q.url.host ≢ []) same_req host,
        c,
        some_c,
        subst (λ (q : Request). Connects config q c) same_req connects,
      )

  -- Dial succeeds only with a connection, never a nil one: that of net.Dial for http and ws, that of
  -- tls.Dial for https and wss, to the host of a URL that has one, beside the GET request for it.
  pub dial_lem :
      (raw_url : Bytes) (config : K) {conn : Option C} {req : Request}
      → dial d raw_url config ≡ ok (conn, req)
      → (d.new_request (codes "GET") raw_url ≡ ok req)
        × (req.url.host ≢ [])
        × (c : C) × (conn ≡ some c)
        × Connects config req c
  unfolding dial
  dial_lem raw_url config h = dial_request-ok config (d.new_request (codes "GET") raw_url) h
