-- ===== src/Storage/Kept.antt =====
-- The calls of components/spiffs_storage/spiffs_storage.c keep what they promise where no platform call fails.
use Prim.Native.String.{String}
use text.Mathlib.TextPositions.{eq_refl}
use captive_portal_esp.Base.{
  ℕ, ◌-◌, ◌≡◌, refl, ap, ◌∙◌, Bool, true, false, Option, none, some, List, [], ◌∷◌, ◌==◌,
  if◌then◌else◌, length, take, min_self, take-length, length-take, ==_refl, Bool-cases, inl, inr,
}
use captive_portal_esp.Bytes.{Bytes}
use captive_portal_esp.Esp.{Env, World, M, Reliable, update}
use captive_portal_esp.Storage.{
  is_some, content, overwrite, append, opened, file_exists, get_file_size, write_file, read_file,
  read_file_line, create_file, delete_file, rename_file, fread, unlink, rename, fopen_read,
}
use captive_portal_esp.Storage.Reliable.{update-update}
use captive_portal_esp.Storage.Buffers.{overlay_lem, first_line-take, line_fills, room}
use captive_portal_esp.Storage.Spec.{
  Files, Call, Answer, line_of, promised, promised_all, perform, perform_all,
}

opened_lem :
    (appending : Bool) (old : Option Bytes)
    → opened (if appending then append else overwrite) old ≡ (if appending then content old else [])
opened_lem true old = refl
opened_lem false old = refl

-- `m` answers and leaves what the map does.
pub record Keeps (m : M Answer) (w : World) (p : Answer × Files) : Type 0 where
  pub answer : (m w).0 ≡ p.0
  pub files : (m w).1.files ≡ p.1

module _ {env : Env} (rel : Reliable env) (renames : (t : ℕ) → env.rename_ok t ≡ true) where
  delete-Keeps :
      (name : String) (w : World) (old : Option Bytes)
      → w.files name ≡ old
      → Keeps (perform env (Call.delete name)) w (promised (Call.delete name) w.files)
  unfolding perform promised delete_file file_exists unlink
  delete-Keeps name w none e = record {
    answer = rw (promised, e) refl;
    files = rw (promised, e) refl;
  }
  delete-Keeps name w (some b) e = record {
    answer = rw (promised, e, rel.unlink_ok w.tick) refl;
    files = rw (promised, e, rel.unlink_ok w.tick) refl;
  }

  write-Keeps :
      (name : String) (bytes : Bytes) (appending is_binary : Bool) (w : World)
      → Keeps
          (perform env (Call.write name bytes appending is_binary))
          w
          (promised (Call.write name bytes appending is_binary) w.files)
  unfolding perform promised write_file
  write-Keeps name bytes appending is_binary w = elim (Bool-cases (length bytes == 0)) [
    | inl t ↦ record { answer = rw t refl; files = rw t refl }
    | inr f ↦ record {
      answer = rw (f, rel.fopen_ok w.tick) (simp (rel.fwrite_count, min_self, ==_refl));
      files =
          rw (f, rel.fopen_ok w.tick)
            (simp (
              rel.fwrite_count, rel.flush_count, eq_refl, min_self, take-length, update-update,
              opened_lem,
            ));
    }
  ]

  read-Keeps :
      (name : String) (buffer : Bytes) (w : World) (old : Option Bytes)
      → w.files name ≡ old
      → (length buffer == 0) ≡ false
      → Keeps (perform env (Call.read name buffer)) w (promised (Call.read name buffer) w.files)
  unfolding perform promised read_file fread fopen_read
  read-Keeps name buffer w none e f = record {
    answer = rw (promised, f, rel.fopen_ok w.tick, e) refl;
    files = rw (promised, f, rel.fopen_ok w.tick, e) refl;
  }
  read-Keeps name buffer w (some b) e f = record {
    answer =
        rw (promised, f, rel.fopen_ok w.tick, e)
          (simp (fread, rel.fread_count, take-length, e, overlay_lem));
    files = rw (promised, f, rel.fopen_ok w.tick, e) refl;
  }

  read_nothing-Keeps :
      (name : String) (buffer : Bytes) (w : World)
      → (length buffer == 0) ≡ true
      → Keeps (perform env (Call.read name buffer)) w (promised (Call.read name buffer) w.files)
  unfolding perform promised read_file
  read_nothing-Keeps name buffer w t = record { answer = rw t refl; files = rw t refl }

  line-Keeps :
      (name : String) (buffer : Bytes) (w : World) (old : Option Bytes)
      → w.files name ≡ old
      → Keeps
          (perform env (Call.read_line name buffer))
          w
          (promised (Call.read_line name buffer) w.files)
  unfolding perform promised read_file_line
  line-Keeps name buffer w none e = record {
    answer = rw (promised, rel.fopen_ok w.tick, e) refl;
    files = rw (promised, rel.fopen_ok w.tick, e) refl;
  }
  line-Keeps name buffer w (some b) e =
      let line = first_line-take env (length buffer - 1) b in
      elim (Bool-cases (length (take (length buffer - 1) (line_of b)) == 0)) [
        | inl t ↦ record {
          answer =
              rw (promised, rel.fopen_ok w.tick, e)
                (simp (fread, rel.fread_count, take-length, e, line, t));
          files =
              rw (promised, rel.fopen_ok w.tick, e)
                (simp (fread, rel.fread_count, take-length, e, line, t));
        }
        | inr f ↦ record {
          answer =
              rw (promised, rel.fopen_ok w.tick, e)
                (simp (fread, rel.fread_count, take-length, e, line, f)
                  (ap (λ l. Answer.filled true l)
                    (line_fills (take (length buffer - 1) (line_of b)) buffer
                      (room (length buffer) _ _ (length-take (length buffer - 1) (line_of b)) f))));
          files =
              rw (promised, rel.fopen_ok w.tick, e)
                (simp (fread, rel.fread_count, take-length, e, line, f));
        }
      ]

  moved-Keeps :
      (old_name new_name : String) (w : World) (old : Option Bytes)
      → w.files old_name ≡ old
      → Keeps
          (perform env (Call.moved old_name new_name))
          w
          (promised (Call.moved old_name new_name) w.files)
  unfolding perform promised rename_file file_exists rename
  moved-Keeps old_name new_name w none e = record {
    answer = rw (promised, e) refl;
    files = rw (promised, e) refl;
  }
  moved-Keeps old_name new_name w (some b) e = elim (Bool-cases (is_some (w.files new_name))) [
    | inl t ↦ record { answer = rw (promised, e, t) refl; files = rw (promised, e, t) refl }
    | inr f ↦ record {
      answer = rw (promised, e, f, renames w.tick) refl;
      files =
          rw (promised, e, f, renames w.tick)
            (ap (update (update w.files old_name none) new_name) e);
    }
  ]

  perform-Keeps : (c : Call) (w : World) → Keeps (perform env c) w (promised c w.files)
  unfolding perform promised file_exists get_file_size create_file
  perform-Keeps (Call.exists name) w = record { answer = refl; files = refl }
  perform-Keeps (Call.size name) w = record { answer = refl; files = refl }
  perform-Keeps (Call.create name) w = record {
    answer = rw (rel.fopen_ok w.tick) refl;
    files = rw (rel.fopen_ok w.tick) refl;
  }
  perform-Keeps (Call.delete name) w = delete-Keeps name w _ refl
  perform-Keeps (Call.write name bytes appending is_binary) w =
      write-Keeps name bytes appending is_binary w
  perform-Keeps (Call.read name buffer) w = elim (Bool-cases (length buffer == 0)) [
    | inl t ↦ read_nothing-Keeps name buffer w t
    | inr f ↦ read-Keeps name buffer w _ refl f
  ]
  perform-Keeps (Call.read_line name buffer) w = line-Keeps name buffer w _ refl
  perform-Keeps (Call.moved old_name new_name) w = moved-Keeps old_name new_name w _ refl

  -- Where no platform call fails, any sequence of calls that test, measure, create, delete, write,
  -- read and rename files answers as the specification on a map from names to contents does, and
  -- leaves the files that it leaves.
  pub perform_all-Keeps :
      (calls : List Call) (w : World)
      → ((perform_all env calls w).0 ≡ (promised_all calls w.files).0)
        × ((perform_all env calls w).1.files ≡ (promised_all calls w.files).1)
  unfolding perform_all promised_all
  perform_all-Keeps [] w = (refl, refl)
  perform_all-Keeps (c ∷ cs) w =
      let now = perform-Keeps c w in
      let (answers, files) = perform_all-Keeps cs (perform env c w).1 in
      (
        rw (now.answer, answers, now.files) refl,
        files ∙ ap (λ fs. (promised_all cs fs).1) now.files,
      )
