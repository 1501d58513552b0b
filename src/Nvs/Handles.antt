-- ===== src/Nvs/Handles.antt =====
-- However the library answers, the functions of components/nvs_storage close every handle that they open.
use Prim.Native.String.{String}
use captive_portal_esp.Base.{
  ℕ, ◌+◌, ◌≡◌, Bool, true, false, if◌then◌else◌, arith, List, [], ◌∷◌, sym, subst,
}
use captive_portal_esp.Bytes.{Bytes}
use captive_portal_esp.Esp.{is_ok}
use captive_portal_esp.Nvs.Api.{
  Nvs, Session, N, pure, ◌>>=◌, ◌>>◌, call, read, count_open, open_handle, close_handle,
  close_and_return,
}
use captive_portal_esp.Nvs.Credentials.{set_wifi_credentials, get_text, get_wifi_credentials}
use captive_portal_esp.Nvs.SelfTests.{nvs_storage_test, wifi_credentials_test}
use captive_portal_esp.Nvs.Params.{set_params, get_params, partition_test, partition_init}

module _ {S : Type 0} where
  -- Run with `held` handles open, `m` ends with none.
  pub record Leaves {A : Type 0} (held : ℕ) (m : N S A) : Type 0 where
    pub balance : (w : Session S) → (m w).1.opened + w.closed + held ≡ w.opened + (m w).1.closed

  module _ {A : Type 0} where
    Leaves-pure : (a : A) → Leaves 0 (pure a)
    Leaves-pure a = record { balance = λ w. omega arith }

    Leaves-if :
        {h : ℕ} (c : Bool) (m n : N S A) → Leaves h m → Leaves h n → Leaves h (if c then m else n)
    Leaves-if true m n p q = p
    Leaves-if false m n p q = q

    Leaves-call :
        {B : Type 0} {h : ℕ} (g : S → B × S) (f : B → N S A)
        → ((b : B) → Leaves h (f b))
        → Leaves h (call g >>= f)
    Leaves-call g f p = record { balance = λ w. (p (g w.store).0).balance (call g w).1 }

    Leaves-read :
        {B : Type 0} {h : ℕ} (g : S → B) (f : B → N S A)
        → ((b : B) → Leaves h (f b))
        → Leaves h (read g >>= f)
    Leaves-read g f p = record { balance = λ w. (p (g w.store)).balance w }

    Leaves-then :
        {B : Type 0} (m : N S B) (f : B → N S A)
        → Leaves 0 m
        → ((b : B) → Leaves 0 (f b))
        → Leaves 0 (m >>= f)
    Leaves-then m f p q = record {
      balance =
          λ w. let a = p.balance w in let b = (q (m w).0).balance (m w).1 in omega (arith, a, b);
    }

  module _ (nvs : Nvs S) {A : Type 0} where
    Leaves-close : (a : A) → Leaves 1 (close_and_return nvs a)
    unfolding close_handle
    Leaves-close a = record { balance = λ w. omega arith }

    Leaves-close_tt : (m : N S A) → Leaves 0 m → Leaves 1 (close_and_return nvs tt >> m)
    unfolding close_handle
    Leaves-close_tt m p = record {
      balance = λ w. let a = p.balance (close_handle nvs w).1 in omega (arith, a);
    }

    Leaves-close_then : (m : N S A) → Leaves 0 m → Leaves 1 (close_handle nvs >> m)
    unfolding close_handle
    Leaves-close_then m p = record {
      balance = λ w. let a = p.balance (close_handle nvs w).1 in omega (arith, a);
    }

    Leaves-open :
        {h : ℕ} (f : Bool → N S A)
        → Leaves h (f false)
        → Leaves (h + 1) (f true)
        → Leaves h (open_handle nvs >>= f)
    unfolding open_handle
    Leaves-open {h} f p q = record {
      balance = λ w. go w (nvs.nvs_open w.store).1 (is_ok (nvs.nvs_open w.store).0);
    }
      where
        go :
            (w : Session S) (s : S) (ok : Bool)
            → (let w' = record w { store = s; opened = count_open ok w.opened } in
                (f ok w').1.opened + w.closed + h ≡ w.opened + (f ok w').1.closed)
        go w s true =
            let a = q.balance (record w { store = s; opened = w.opened + 1 }) in omega (arith, a)
        go w s false = p.balance (record w { store = s })

  ruleset leaves_rules = (
    Leaves-pure, Leaves-if, Leaves-call, Leaves-read, Leaves-close, Leaves-close_then, Leaves-open,
  )

  module _ (nvs : Nvs S) where
    set_wifi_credentials-Leaves :
        (ssid password : Bytes) → Leaves 0 (set_wifi_credentials nvs ssid password)
    unfolding set_wifi_credentials
    set_wifi_credentials-Leaves ssid password = search leaves_rules depth 20

    set_params-Leaves : (key : String) (value : Bytes) → Leaves 0 (set_params nvs key value)
    unfolding set_params
    set_params-Leaves key value = search leaves_rules depth 20

    get_params-Leaves :
        (key : String) (value : Bytes) (n : ℕ) → Leaves 0 (get_params nvs key value n)
    unfolding get_params
    get_params-Leaves key value n = search (leaves_rules, Leaves-close_tt nvs) depth 20

    get_text_same :
        (key : String) (buffer : Bytes) (w : Session S) → (get_text nvs key buffer w).1 ≡ w
    unfolding get_text
    get_text_same key buffer w = ground arith

    Leaves-get_text :
        {A : Type 0} {h : ℕ} (key : String) (buffer : Bytes) (f : Bool × (ℕ × Bytes) → N S A)
        → ((x : Bool × (ℕ × Bytes)) → Leaves h (f x))
        → Leaves h (get_text nvs key buffer >>= f)
    Leaves-get_text {A} {h} key buffer f p = record {
      balance = λ w.
          let x = (get_text nvs key buffer w).0 in
          subst (λ w'. (f x w').1.opened + w.closed + h ≡ w.opened + (f x w').1.closed)
            (sym (get_text_same key buffer w)) ((p x).balance w);
    }

    get_wifi_credentials-Leaves :
        (ssid password : Bytes) → Leaves 0 (get_wifi_credentials nvs ssid password)
    unfolding get_wifi_credentials
    get_wifi_credentials-Leaves ssid password = search (leaves_rules, Leaves-get_text) depth 20

    partition_test-Leaves : Leaves 0 (partition_test nvs)
    unfolding partition_test
    partition_test-Leaves =
        search (Leaves-pure, Leaves-then, set_params-Leaves, get_params-Leaves) depth 20

    partition_init-Leaves : Leaves 0 (partition_init nvs)
    unfolding partition_init
    partition_init-Leaves =
        search (Leaves-pure, Leaves-if, Leaves-call, Leaves-then, partition_test-Leaves) depth 20

    nvs_storage_test-Leaves : Leaves 0 (nvs_storage_test nvs)
    unfolding nvs_storage_test
    nvs_storage_test-Leaves = search leaves_rules depth 20

    wifi_credentials_test-Leaves : Leaves 0 (wifi_credentials_test nvs)
    unfolding wifi_credentials_test
    wifi_credentials_test-Leaves =
        search (Leaves-pure, Leaves-then, get_wifi_credentials-Leaves, set_wifi_credentials-Leaves)
          depth 20

-- A call of a function of nvs_storage.h or custom_partition.h.
pub data Call : Type 0 where
  set_credentials get_credentials : Bytes → Bytes → Call
  set_param : String → Bytes → Call
  get_param : String → Bytes → ℕ → Call
  init_partition test_storage test_credentials : Call

module _ {S : Type 0} (nvs : Nvs S) where
  unfoldable pub run : Call → N S (Unit {0})
  run (set_credentials ssid password) = set_wifi_credentials nvs ssid password >> pure tt
  run (get_credentials ssid password) = get_wifi_credentials nvs ssid password >> pure tt
  run (set_param key value) = set_params nvs key value >> pure tt
  run (get_param key value n) = get_params nvs key value n >> pure tt
  run init_partition = partition_init nvs >> pure tt
  run test_storage = nvs_storage_test nvs >> pure tt
  run test_credentials = wifi_credentials_test nvs >> pure tt

  unfoldable pub run_all : List Call → N S (Unit {0})
  run_all [] = pure tt
  run_all (c ∷ cs) = run c >> run_all cs

  run-Leaves : (c : Call) → Leaves 0 (run c)
  unfolding run
  run-Leaves (set_credentials ssid password) =
      Leaves-then _ _ (set_wifi_credentials-Leaves nvs ssid password) (λ x. Leaves-pure tt)
  run-Leaves (get_credentials ssid password) =
      Leaves-then _ _ (get_wifi_credentials-Leaves nvs ssid password) (λ x. Leaves-pure tt)
  run-Leaves (set_param key value) =
      Leaves-then _ _ (set_params-Leaves nvs key value) (λ x. Leaves-pure tt)
  run-Leaves (get_param key value n) =
      Leaves-then _ _ (get_params-Leaves nvs key value n) (λ x. Leaves-pure tt)
  run-Leaves init_partition = Leaves-then _ _ (partition_init-Leaves nvs) (λ x. Leaves-pure tt)
  run-Leaves test_storage = Leaves-then _ _ (nvs_storage_test-Leaves nvs) (λ x. Leaves-pure tt)
  run-Leaves test_credentials =
      Leaves-then _ _ (wifi_credentials_test-Leaves nvs) (λ x. Leaves-pure tt)

  run_all-Leaves : (cs : List Call) → Leaves 0 (run_all cs)
  unfolding run_all
  run_all-Leaves [] = Leaves-pure tt
  run_all-Leaves (c ∷ cs) = Leaves-then _ _ (run-Leaves c) (λ x. run_all-Leaves cs)

  -- However the library answers, any sequence of calls on the credentials and the parameters,
  -- self-tests among them, closes as many handles as it opened.
  pub handles_closed :
      (calls : List Call) (w : Session S)
      → (run_all calls w).1.opened + w.closed ≡ w.opened + (run_all calls w).1.closed
  handles_closed calls w = omega (arith, (run_all-Leaves calls).balance w)
