-- ===== src/Rfid/Closes.antt =====
-- Rules for what a function does to the mutex and to the heap, one for each way to build a function.
use captive_portal_esp.Base.{
  ℕ, ◌+◌, ◌≡◌, Bool, true, false, Option, none, some, if◌then◌else◌, arith, subst,
}
use captive_portal_esp.Esp.{
  Env, World, Usage, M, pure, ◌>>=◌, ◌>>◌, count_take, count_malloc, take_mutex, give_mutex, malloc,
  free,
}
use captive_portal_esp.Rfid.Store.{leave, free_and_leave}

-- From `u` to `v` there are `held` more gives than takes and `blocks` more frees than allocations.
pub record Closed (held blocks : ℕ) (u v : Usage) : Type 0 where
  pub gives : v.takes + u.gives + held ≡ u.takes + v.gives
  pub frees : v.mallocs + u.frees + blocks ≡ u.mallocs + v.frees

-- `m` leaves the mutex and the heap alone.
pub record Neutral {A : Type 0} (m : M A) : Type 0 where
  pub same : (w : World) → (m w).1.usage ≡ w.usage

-- Run while the mutex is held `held` times and `blocks` blocks are allocated, `m` ends with none.
pub record Closes {A : Type 0} (held blocks : ℕ) (m : M A) : Type 0 where
  pub closed : (w : World) → Closed held blocks w.usage (m w).1.usage

module _ {A : Type 0} where
  pub Closes-pure : (a : A) → Closes 0 0 (pure a)
  Closes-pure a = record { closed = λ w. omega arith }

  pub Closes-leave : (a : A) → Closes 1 0 (leave a)
  unfolding give_mutex
  Closes-leave a = record { closed = λ w. omega arith }

  pub Closes-free_and_leave : (a : A) → Closes 1 1 (free_and_leave a)
  unfolding give_mutex free
  Closes-free_and_leave a = record { closed = λ w. omega arith }

  pub Closes-if :
      {h b : ℕ} (c : Bool) (m n : M A)
      → Closes h b m
      → Closes h b n
      → Closes h b (if c then m else n)
  Closes-if true m n p q = p
  Closes-if false m n p q = q

  pub Closes-option :
      {B : Type 0} {h b : ℕ} (o : Option B) (m : M A) (f : B → M A)
      → Closes h b m
      → ((x : B) → Closes h b (f x))
      → Closes h b (elim o [ none ↦ m | some x ↦ f x ])
  Closes-option none m f p q = p
  Closes-option (some x) m f p q = q x

  pub Closes-free : (m : M A) → Closes 1 0 m → Closes 1 1 (free >> m)
  unfolding free
  Closes-free m p = record {
    closed = λ w. let c = p.closed (free w).1 in omega (arith, c.gives, c.frees);
  }

module _ {A B : Type 0} where
  pub Closes-bind :
      {h b : ℕ} (m : M A) (f : A → M B)
      → Neutral m
      → ((a : A) → Closes h b (f a))
      → Closes h b (m >>= f)
  Closes-bind {h} {b} m f n p = record {
    closed = λ w.
        subst (λ u. Closed h b u (f (m w).0 (m w).1).1.usage) (n.same w)
          ((p (m w).0).closed (m w).1);
  }

  -- One function behind another, when both close what they open.
  pub Closes-then :
      (m : M A) (f : A → M B) → Closes 0 0 m → ((a : A) → Closes 0 0 (f a)) → Closes 0 0 (m >>= f)
  Closes-then m f p q = record {
    closed = λ w.
        let c = p.closed w in
        let d = (q (m w).0).closed (m w).1 in omega (arith, c.gives, c.frees, d.gives, d.frees);
  }

Closed-take :
    {h b : ℕ} {v : Usage} (u : Usage) → Closed (h + 1) b (count_take true u) v → Closed h b u v
Closed-take u c = omega (arith, c.gives, c.frees)

Closed-malloc :
    {h b : ℕ} {v : Usage} (u : Usage) → Closed h (b + 1) (count_malloc true u) v → Closed h b u v
Closed-malloc u c = omega (arith, c.gives, c.frees)

module _ {A : Type 0} (env : Env) {h b : ℕ} (f : Bool → M A) where
  pub Closes-take :
      Closes h b (f false) → Closes (h + 1) b (f true) → Closes h b (take_mutex env >>= f)
  unfolding take_mutex
  Closes-take p q = record { closed = λ w. go w (env.semaphore_taken w.tick) }
    where
      go :
          (w : World) (taken : Bool)
          → Closed h b w.usage
              (f taken (record w { tick = w.tick + 1; usage = count_take taken w.usage })).1.usage
      go w true = Closed-take w.usage (q.closed _)
      go w false = p.closed _

  pub Closes-malloc :
      Closes h b (f false) → Closes h (b + 1) (f true) → Closes h b (malloc env >>= f)
  unfolding malloc
  Closes-malloc p q = record { closed = λ w. go w (env.malloc_ok w.tick) }
    where
      go :
          (w : World) (got : Bool)
          → Closed h b w.usage
              (f got (record w { tick = w.tick + 1; usage = count_malloc got w.usage })).1.usage
      go w true = Closed-malloc w.usage (q.closed _)
      go w false = p.closed _

pub ruleset closes_rules = (
  Closes-pure, Closes-leave, Closes-free_and_leave, Closes-if, Closes-option, Closes-free,
  Closes-take, Closes-malloc, Closes-bind,
)
