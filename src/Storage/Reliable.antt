-- ===== src/Storage/Reliable.antt =====
-- What reads and writes of components/spiffs_storage/spiffs_storage.c do on a platform where none is short, and
-- on one where no call fails.
use Prim.Native.String.{String}
use mathlib.Core.Path.{fun_ext}
use mathlib.Core.List.{append-nil}
use text.Mathlib.TextPositions.{eq_refl}
use captive_portal_esp.Base.{
  ℕ, ◌+◌, ◌<◌, ◌≡◌, Bool, true, false, some, none, Option, ◌++◌, ◌==◌, ==_refl, if◌then◌else◌,
  length, drop_all, take-append, take-length, min_self, arith,
}
use captive_portal_esp.Bytes.{Bytes}
use captive_portal_esp.Esp.{Env, World, Reliable, Whole, Reliable-Whole, update}
use captive_portal_esp.Storage.{
  overwrite, append, opened, fread, get_file_size, write_file, read_file, delete_file,
}

pub update-update :
    (f : String → Option Bytes) (k : String) (a b : Option Bytes)
    → update (update f k a) k b ≡ update f k b
update-update f k a b = fun_ext λ j. ground arith

pub pos→ne_zero : (n : ℕ) → 0 < n → (n == 0) ≡ false
pos→ne_zero n h = ground arith

module _ {env : Env} (whole : Whole env) where
  -- A write to a file that opens succeeds, and brings all bytes to the file.
  pub write_file-Whole :
      (name : String) (bytes : Bytes) (appending : Bool) (w : World)
      → env.fopen_ok w.tick ≡ true
      → 0 < length bytes
      → (t : ℕ) × (write_file env name bytes appending true w ≡ (
        true,
        record w {
          tick = t;
          files =
              update w.files name
                (some (opened (if appending then append else overwrite) (w.files name) ++ bytes));
        },
      ))
  unfolding write_file
  write_file-Whole name bytes appending w opens h = (
    w.tick + 1 + 1 + 1,
    rw (pos→ne_zero (length bytes) h, opens)
        (simp (
          whole.fwrite_count, whole.flush_count, eq_refl, min_self, take-length, ==_refl,
          update-update,
        )),
  )

  -- A read of a file at least as long as the buffer fills the buffer with the file's first bytes.
  pub read_file-Whole :
      (name : String) (buffer b rest : Bytes) (w : World)
      → env.fopen_ok w.tick ≡ true
      → 0 < length buffer
      → w.files name ≡ some (b ++ rest)
      → length b ≡ length buffer
      → (t : ℕ) × (read_file env name buffer w ≡ ((true, b), record w { tick = t }))
  unfolding read_file
  read_file-Whole name buffer b rest w opens h e same = (
    w.tick + 1 + 1,
    rw (pos→ne_zero (length buffer) h, opens, e)
        (simp (
          fread,
          e,
          take-append (length buffer) b rest same,
          whole.fread_count,
          take-length,
          drop_all (length b) buffer (omega arith),
          append-nil,
        )),
  )

module _ (env : Env) where
  -- A file that does not open stays as it is.
  pub write_file_closed :
      (name : String) (bytes : Bytes) (appending : Bool) (w : World)
      → env.fopen_ok w.tick ≡ false
      → 0 < length bytes
      → write_file env name bytes appending true w ≡ (false, record w { tick = w.tick + 1 })
  unfolding write_file
  write_file_closed name bytes appending w shut h = rw (pos→ne_zero (length bytes) h, shut)

  pub read_file_closed :
      (name : String) (buffer : Bytes) (w : World)
      → env.fopen_ok w.tick ≡ false
      → 0 < length buffer
      → read_file env name buffer w ≡ ((false, buffer), record w { tick = w.tick + 1 })
  unfolding read_file
  read_file_closed name buffer w shut h = rw (pos→ne_zero (length buffer) h, shut)

module _ {env : Env} (rel : Reliable env) where
  pub write_file-Reliable :
      (name : String) (bytes : Bytes) (appending : Bool) (w : World)
      → 0 < length bytes
      → (t : ℕ) × (write_file env name bytes appending true w ≡ (
        true,
        record w {
          tick = t;
          files =
              update w.files name
                (some (opened (if appending then append else overwrite) (w.files name) ++ bytes));
        },
      ))
  write_file-Reliable name bytes appending w h =
      write_file-Whole (Reliable-Whole rel) name bytes appending w (rel.fopen_ok w.tick) h

  pub read_file-Reliable :
      (name : String) (buffer b rest : Bytes) (w : World)
      → 0 < length buffer
      → w.files name ≡ some (b ++ rest)
      → length b ≡ length buffer
      → (t : ℕ) × (read_file env name buffer w ≡ ((true, b), record w { tick = t }))
  read_file-Reliable name buffer b rest w h e same =
      read_file-Whole (Reliable-Whole rel) name buffer b rest w (rel.fopen_ok w.tick) h e same

  pub delete_file-Reliable :
      (name : String) (b : Bytes) (w : World)
      → w.files name ≡ some b
      → (t : ℕ) × (delete_file env name w
          ≡ (true, record w { tick = t; files = update w.files name none }))
  unfolding delete_file
  delete_file-Reliable name b w e = (w.tick + 1, rw (e, rel.unlink_ok w.tick))

pub get_file_size-some :
    (name : String) (b : Bytes) (w : World)
    → w.files name ≡ some b
    → get_file_size name w ≡ (some (length b), w)
unfolding get_file_size
get_file_size-some name b w e = rw e
