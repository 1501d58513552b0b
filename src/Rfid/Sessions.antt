-- ===== src/Rfid/Sessions.antt =====
-- Sequences of calls of components/rfid_manager/rfid_manager.c: what they do to the mutex and the heap.
use captive_portal_esp.Base.{List, [], ◌∷◌}
use captive_portal_esp.Esp.{Env, World, M, pure, ◌>>=◌}
use captive_portal_esp.Rfid.Closes.{Closes, Closed, Closes-pure, Closes-then}
use captive_portal_esp.Rfid.Balance.{
  add_card-Closes, remove_card-Closes, check_card-Closes, get_card_count-Closes, list_cards-Closes,
  get_card_list_json-Closes, save_to_file-Closes, load_from_file-Closes, is_database_valid-Closes,
  format_database-Closes, load_defaults-Closes, reset_to_defaults-Closes,
}
use captive_portal_esp.Rfid.Requests.{Request, Reply, serve, serve_all}

module _ (env : Env) where
  Closes-reply :
      {A : Type 0} (m : M A) (f : A → Reply) → Closes 0 0 m → Closes 0 0 (m >>= λ a. pure (f a))
  Closes-reply m f p = Closes-then m (λ a. pure (f a)) p (λ a. Closes-pure (f a))

  serve-Closes : (request : Request) → Closes 0 0 (serve env request)
  unfolding serve
  serve-Closes (Request.add card_id name) =
      Closes-reply _ Reply.code (add_card-Closes env card_id name)
  serve-Closes (Request.remove card_id) = Closes-reply _ Reply.code (remove_card-Closes env card_id)
  serve-Closes (Request.check card_id) = Closes-reply _ Reply.code (check_card-Closes env card_id)
  serve-Closes Request.count = Closes-reply _ Reply.number (get_card_count-Closes env)
  serve-Closes Request.save = Closes-reply _ Reply.code (save_to_file-Closes env)
  serve-Closes Request.load = Closes-reply _ Reply.code (load_from_file-Closes env)
  serve-Closes Request.valid = Closes-reply _ Reply.answer (is_database_valid-Closes env)
  serve-Closes Request.format = Closes-reply _ Reply.code (format_database-Closes env)
  serve-Closes Request.defaults = Closes-reply _ Reply.code (load_defaults-Closes env)
  serve-Closes Request.reset = Closes-reply _ Reply.code (reset_to_defaults-Closes env)
  serve-Closes (Request.list max_cards) =
      Closes-reply _ (λ x. Reply.filled x.0 x.1) (list_cards-Closes env _ max_cards)
  serve-Closes (Request.list_json size) =
      Closes-reply _ (λ x. Reply.filled x.0 x.1) (get_card_list_json-Closes env _ size)

  serve_all-Closes : (requests : List Request) → Closes 0 0 (serve_all env requests)
  unfolding serve_all
  serve_all-Closes [] = Closes-pure []
  serve_all-Closes (request ∷ requests) = Closes-then _ _ (serve-Closes request) (λ reply.
      Closes-then _ _ (serve_all-Closes requests) (λ replies. Closes-pure (reply ∷ replies)))

  -- However the platform's calls end, any sequence of calls of the card database gives the mutex
  -- as often as it took it, and frees as many blocks as it allocated.
  pub serve_all-Closed :
      (requests : List Request) (w : World) → Closed 0 0 w.usage (serve_all env requests w).1.usage
  serve_all-Closed requests w = (serve_all-Closes requests).closed w
