-- ===== src/Server/Routes/Served.antt =====
-- The server that components/app_local_server/app_local_server.c starts has the handlers of its table.
use Prim.Native.String.{String}
use text.Mathlib.Text.{◌==◌ as str_eq}
use text.Mathlib.TextEquality.{eq_iff}
use captive_portal_esp.Base.{
  ℕ, ◌+◌, ◌≤◌, ◌<◌, ◌≡◌, refl, sym, ap, ◌∙◌, Bool, true, false, ◌&&◌, Option, none, some, List, [],
  ◌∷◌, length, arith, Bool-cases, Option-cases, inl, inr,
}
use captive_portal_esp.Server.Routes.{
  Method, http_get, http_post, http_delete, Handler, UriHandler, uri_handlers, uri_handler_margin,
  Httpd, register_all, start_webserver, same_method, is_for, route, Documented,
}

-- No two entries are for the same requests.
abbrev distinct : List UriHandler → Bool
distinct [] = true
distinct (h ∷ hs) = elim (route h.method h.uri hs) [ none ↦ distinct hs | some other ↦ false ]

uri_handlers-distinct : distinct uri_handlers ≡ true
unfolding uri_handlers
uri_handlers-distinct = refl

same_method_self : (m : Method) → same_method m m ≡ true
same_method_self http_get = refl
same_method_self http_post = refl
same_method_self http_delete = refl

same_method_eq : (m k : Method) → same_method m k ≡ true → m ≡ k
same_method_eq http_get http_get e = refl
same_method_eq http_post http_post e = refl
same_method_eq http_delete http_delete e = refl
same_method_eq http_get http_post e = cc
same_method_eq http_get http_delete e = cc
same_method_eq http_post http_get e = cc
same_method_eq http_post http_delete e = cc
same_method_eq http_delete http_get e = cc
same_method_eq http_delete http_post e = cc

both_true : (a b : Bool) → (a && b) ≡ true → (a ≡ true) × (b ≡ true)
both_true true true e = (refl, refl)
both_true true false e = cc
both_true false b e = cc

is_for_eq :
    (m : Method) (u : String) (h : UriHandler) → is_for m u h ≡ true → (h.method ≡ m) × (h.uri ≡ u)
is_for_eq m u h e =
    let (methods, uris) = both_true (same_method h.method m) (str_eq h.uri u) e in
    (same_method_eq h.method m methods, (eq_iff h.uri u).0 uris)

is_for_self : (h : UriHandler) → is_for h.method h.uri h ≡ true
is_for_self h = rw (same_method_self h.method, (eq_iff h.uri h.uri).1 refl) refl

is_for_other :
    (h g : UriHandler) → is_for h.method h.uri g ≡ false → is_for g.method g.uri h ≡ false
is_for_other h g e = elim (Bool-cases (is_for g.method g.uri h)) [
  | inr other ↦ other
  | inl same ↦
      let (methods, uris) = is_for_eq g.method g.uri h same in
      let again : is_for h.method h.uri g ≡ true = rw (methods, uris) (is_for_self g) in
      let no_way : true ≡ false = sym again ∙ e in cc no_way
]

abbrev or_else : Option Handler → Option Handler → Option Handler
or_else none other = other
or_else (some h) other = some h

or_else-none : (o other : Option Handler) → other ≡ none → or_else o other ≡ o
or_else-none none other e = e
or_else-none (some h) other e = refl

module _ {S : Type 0} {httpd : Httpd S} (doc : Documented httpd) where
  -- Nothing is registered yet for the requests of these entries.
  abbrev Free : S → List UriHandler → Type 0
  Free s [] = Unit
  Free s (h ∷ hs) = (httpd.find s h.method h.uri ≡ none) × Free s hs

  Free-register :
      (h : UriHandler) (s : S)
      → 0 < doc.room s
      → httpd.find s h.method h.uri ≡ none
      → (hs : List UriHandler) → route h.method h.uri hs ≡ none
      → Free s hs
      → Free (httpd.register_uri_handler h s).1 hs
  Free-register h s room free [] e f = tt
  Free-register h s room free (g ∷ hs) e (first, rest) =
      elim (Bool-cases (is_for h.method h.uri g)) [
        | inl same ↦ let found : some g.handler ≡ none = (rw same at e) in cc found
        | inr other ↦ (
          doc.register_find h s room free g.method g.uri ∙ rw (is_for_other h g other) first,
          Free-register h s room free hs (rw other at e) rest,
        )
      ]

  distinct-cons :
      (h : UriHandler) (hs : List UriHandler)
      → distinct (h ∷ hs) ≡ true
      → (route h.method h.uri hs ≡ none) × (distinct hs ≡ true)
  distinct-cons h hs e = elim (Option-cases (route h.method h.uri hs)) [
    | inl absent ↦ (absent, rw (distinct, absent) at e)
    | inr (other, there) ↦ let no_way : false ≡ true = (rw (distinct, there) at e) in cc no_way
  ]

  Free-empty :
      (s : S)
      → ((m : Method) (u : String) → httpd.find s m u ≡ none)
      → (hs : List UriHandler) → Free s hs
  Free-empty s empty [] = tt
  Free-empty s empty (h ∷ hs) = (empty h.method h.uri, Free-empty s empty hs)

  register_all_find :
      (hs : List UriHandler) (s : S)
      → length hs ≤ doc.room s
      → distinct hs ≡ true
      → Free s hs
      → (m : Method) (u : String)
      → httpd.find (register_all httpd hs s) m u ≡ or_else (route m u hs) (httpd.find s m u)
  unfolding register_all
  register_all_find [] s room different f m u = refl
  register_all_find (h ∷ hs) s room different (first, rest) m u =
      let (absent, more) = distinct-cons h hs different in
      let s' : S = (httpd.register_uri_handler h s).1 in
      let found = doc.register_find h s (omega arith) first m u in
      let later =
        register_all_find hs s' (omega (arith, doc.register_room h s)) more
          (Free-register h s (omega arith) first hs absent rest) m u in
      elim (Bool-cases (is_for m u h)) [
        | inr other ↦ rw other (later ∙ ap (or_else (route m u hs)) (found ∙ rw other refl))
        | inl same ↦
            let (methods, uris) = is_for_eq m u h same in
            let no_other : route m u hs ≡ none = rw (← methods, ← uris) absent in
            rw same (later ∙ rw no_other (found ∙ rw same refl))
      ]

  -- Where the HTTP library behaves as documented, every entry of the table is registered: the
  -- server calls for each method and path the handler that the table has for them, and has a
  -- handler for paths that are not there.
  pub start_webserver_serves :
      (s : S) × (start_webserver httpd ≡ some s)
      × (httpd.has_404_handler s ≡ true)
      × ((m : Method) (u : String) → httpd.find s m u ≡ route m u uri_handlers)
  unfolding start_webserver
  start_webserver_serves =
      let n : ℕ = length uri_handlers + uri_handler_margin in
      let s0 : S = (httpd.start n).1 in
      let s1 : S = register_all httpd uri_handlers s0 in
      (
        (httpd.register_404_handler s1).1,
        rw (doc.start_ok n) refl,
        doc.register_404_has s1,
        (λ m u.
            doc.register_404_find s1 m u
            ∙ register_all_find uri_handlers s0 (omega (arith, doc.start_room n))
                uri_handlers-distinct (Free-empty s0 (doc.start_find n) uri_handlers) m u
            ∙ or_else-none (route m u uri_handlers) _ (doc.start_find n m u)),
      )
