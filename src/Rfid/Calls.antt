-- ===== src/Rfid/Calls.antt =====
-- Computations that do to the database of components/rfid_manager/rfid_manager.c what calls of its functions do,
-- none of which formats it.
use captive_portal_esp.Base.{
  ◌≡◌, refl, sym, ap, ◌∙◌, true, false, Bool, Option, none, some, List, [], ◌∷◌, ◌++◌,
  if◌then◌else◌,
}
use captive_portal_esp.Esp.{Env, World, M, pure, ◌>>=◌}
use captive_portal_esp.Rfid.Requests.{Request, serve, serve_all}
use captive_portal_esp.Rfid.Spec.{InRange, AllInRange}
use captive_portal_esp.Rfid.Invariants.{Plain, NoFormat}

AllInRange-append : (xs ys : List Request) → AllInRange xs → AllInRange ys → AllInRange (xs ++ ys)
AllInRange-append [] ys h k = k
AllInRange-append (x ∷ xs) ys h k = (h.0, AllInRange-append xs ys h.1 k)

NoFormat-append : (xs ys : List Request) → NoFormat xs → NoFormat ys → NoFormat (xs ++ ys)
NoFormat-append [] ys h k = k
NoFormat-append (x ∷ xs) ys h k = (h.0, NoFormat-append xs ys h.1 k)

module _ (env : Env) where
  serve_all-append :
      (xs ys : List Request) (w : World)
      → (serve_all env (xs ++ ys) w).1 ≡ (serve_all env ys (serve_all env xs w).1).1
  unfolding serve_all
  serve_all-append [] ys w = refl
  serve_all-append (x ∷ xs) ys w = serve_all-append xs ys (serve env x w).1

  -- A computation that does to the world what some such sequence of calls does.
  pub record Calls {A : Type 0} (m : M A) : Type 0 where
    pub calls :
        (w : World)
        → (requests : List Request) × AllInRange requests
          × NoFormat requests
          × ((m w).1 ≡ (serve_all env requests w).1)

  module _ {A : Type 0} where
    pub Calls-pure : (a : A) → Calls (pure a)
    unfolding serve_all
    Calls-pure a = record { calls = λ w. ([], tt, tt, refl) }

    pub Calls-if : (c : Bool) (m n : M A) → Calls m → Calls n → Calls (if c then m else n)
    Calls-if true m n p q = p
    Calls-if false m n p q = q

    pub Calls-option :
        {B : Type 0} (o : Option B) (m : M A) (f : B → M A)
        → Calls m
        → ((x : B) → o ≡ some x → Calls (f x))
        → Calls (elim o [ none ↦ m | some x ↦ f x ])
    Calls-option none m f p q = p
    Calls-option (some x) m f p q = q x refl

  pub Calls-then :
      {A B : Type 0} (m : M A) (f : A → M B) → Calls m → ((a : A) → Calls (f a)) → Calls (m >>= f)
  Calls-then m f p q = record {
    calls = λ w.
        let (xs, h, n, e) = p.calls w in
        let (ys, k, l, d) = (q (m w).0).calls (m w).1 in
        (
          xs ++ ys,
          AllInRange-append xs ys h k,
          NoFormat-append xs ys n l,
          d ∙ ap (λ v. (serve_all env ys v).1) e ∙ sym (serve_all-append xs ys w),
        );
  }

  pub Calls-one :
      {A : Type 0} (m : M A) (request : Request)
      → InRange request
      → Plain request
      → ((w : World) → (m w).1 ≡ (serve env request w).1)
      → Calls m
  unfolding serve_all
  Calls-one m request h n same = record { calls = λ w. (request ∷ [], (h, tt), (n, tt), same w) }

  pub Calls-result : {A B : Type 0} (m : M A) (f : A → B) → Calls m → Calls (m >>= λ r. pure (f r))
  Calls-result m f p = Calls-then m (λ r. pure (f r)) p (λ r. Calls-pure (f r))
