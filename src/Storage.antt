-- ===== src/Storage.antt =====
-- components/spiffs_storage/spiffs_storage.c. A file is its bytes; the calls of the C library and of
-- the SPIFFS driver end as `Env` says. Log output is not modelled.
pub mod Mount
pub mod Mounted
pub mod Reliable
pub mod Buffers
pub mod Spec
pub mod Kept
pub mod SelfTest
pub mod Usage
use Prim.Native.String.{String}
use captive_portal_esp.Base.{
  ℕ, zero, suc, ◌+◌, ◌-◌, Bool, true, false, not, ◌&&◌, ◌||◌, Option, none, some, [], ◌∷◌, ◌++◌,
  ltb, ◌==◌, if◌then◌else◌, length, take, drop, min,
}
use captive_portal_esp.Bytes.{Bytes, c_string}
use captive_portal_esp.Esp.{
  EspErr, is_ok, is_invalid_state, Env, M, pure, ◌>>=◌, ◌>>◌, gets, ask, update,
}

abbrev pub is_some : Option Bytes → Bool
is_some none = false
is_some (some _) = true

abbrev pub content : Option Bytes → Bytes
content none = []
content (some b) = b

-- `fopen` modes "w"/"wb" and "a"/"ab".
pub data Mode : Type 0 where
  overwrite append : Mode

-- What the file holds once it is open for writing.
abbrev pub opened : Mode → Option Bytes → Bytes
opened overwrite old = []
opened append old = content old

abbrev pub set_file : String → Option Bytes → M (Unit {0})
set_file name b w = (tt, record w { files = update w.files name b })

unfoldable pub file_exists : String → M Bool
file_exists name = gets (λ w. is_some (w.files name))

-- `none` is -1: the file does not exist. A size is never negative.
unfoldable pub get_file_size : String → M (Option ℕ)
get_file_size name = gets (λ w. elim (w.files name) [ none ↦ none | some b ↦ some (length b) ])

module _ (env : Env) where
  -- `fopen(name, "w")` or `fopen(name, "a")`
  unfoldable pub fopen_write : String → Mode → M Bool
  fopen_write name mode w =
      let ok = env.fopen_ok w.tick in
      (
        ok,
        record w {
          tick = w.tick + 1;
          files = if ok then update w.files name (some (opened mode (w.files name))) else w.files;
        },
      )

  -- `fwrite(data, 1, data_size, f)` or the output of `fprintf`: how many bytes were accepted
  unfoldable pub fwrite : Bytes → M ℕ
  fwrite bytes = ask (λ t. min (env.fwrite_count t (length bytes)) (length bytes))

  -- `fclose(f)` brings the first bytes of those accepted to the file.
  unfoldable pub fclose_write : String → Bytes → M (Unit {0})
  fclose_write name accepted = do
    kept ← ask (λ t. env.flush_count t (length accepted))
    old ← gets (λ w. content (w.files name))
    set_file name (some (old ++ take kept accepted))

  -- `data_size == 0` is refused; the pointers that the source also tests are never NULL here.
  unfoldable pub write_file : String → Bytes → Bool → Bool → M Bool
  unfolding fopen_write fwrite fclose_write
  write_file name bytes appending is_binary = if length bytes == 0 then pure false else do
    f ← fopen_write name (if appending then append else overwrite)
    if not f then pure false else do
      let sent = if is_binary then bytes else c_string bytes
      written ← fwrite sent
      fclose_write name (take written sent)
      pure (written == length sent)

  -- `fopen(name, "r")` or `fopen(name, "rb")`
  unfoldable pub fopen_read : String → M Bool
  fopen_read name w =
      (env.fopen_ok w.tick && is_some (w.files name), record w { tick = w.tick + 1 })

  -- `fread(buffer, 1, buffer_size, f)`: the bytes read
  unfoldable pub fread : String → ℕ → M Bytes
  fread name size w =
      let wanted = take size (content (w.files name)) in
      (take (env.fread_count w.tick (length wanted)) wanted, record w { tick = w.tick + 1 })

  -- The result and the buffer, whose end keeps what it held when the read is short.
  unfoldable pub read_file : String → Bytes → M (Bool × Bytes)
  unfolding fopen_read fread
  read_file name buffer = if length buffer == 0 then pure (false, buffer) else do
    f ← fopen_read name
    if not f
        then pure (false, buffer)
        else do got ← fread name (length buffer); pure (true, got ++ drop (length got) buffer)

  -- `fgets` stops behind a newline, and before the last byte of the buffer.
  unfoldable pub first_line : ℕ → Bytes → Bytes
  first_line zero b = []
  first_line (suc n) [] = []
  first_line (suc n) (c ∷ b) = if c == 10 then c ∷ [] else c ∷ first_line n b

  unfoldable pub read_file_line : String → Bytes → M (Bool × Bytes)
  unfolding fopen_read fread first_line
  read_file_line name buffer = do
    f ← fopen_read name
    if not f then pure (false, buffer) else do
      got ← fread name (length buffer - 1)
      let line = first_line (length buffer - 1) got
      if length line == 0
          then pure (false, buffer)
          else pure (true, (line ++ 0 ∷ []) ++ drop (length line + 1) buffer)

  unfoldable pub create_file : String → M Bool
  unfolding fopen_write
  create_file name = do f ← fopen_write name overwrite; if not f then pure false else pure true

  unfoldable pub unlink : String → M Bool
  unlink name w =
      let ok = env.unlink_ok w.tick in
      (ok, record w { tick = w.tick + 1; files = if ok then update w.files name none else w.files })

  unfoldable pub delete_file : String → M Bool
  unfolding file_exists unlink
  delete_file name = do
    there ← file_exists name
    if not there
        then pure false
        else do gone ← unlink name; if not gone then pure false else pure true

  -- `rename(old_name, new_name)`; the file moves when the driver says so.
  unfoldable pub rename : String → String → M Bool
  rename old_name new_name w =
      let ok = env.rename_ok w.tick in
      (
        ok,
        record w {
          tick = w.tick + 1;
          files =
              if ok
              then update (update w.files old_name none) new_name (w.files old_name)
              else w.files;
        },
      )

  unfoldable pub rename_file : String → String → M Bool
  unfolding file_exists rename
  rename_file old_name new_name = do
    old_there ← file_exists old_name
    if not old_there then pure false else do
      new_there ← file_exists new_name
      if new_there
          then pure false
          else do moved ← rename old_name new_name; if not moved then pure false else pure true

unfoldable pub is_initialized : M Bool
is_initialized = gets (λ w. w.spiffs_initialized)
