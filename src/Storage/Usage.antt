-- ===== src/Storage/Usage.antt =====
-- No function of components/spiffs_storage/spiffs_storage.c takes or gives the RFID mutex or touches
-- the program's heap, however its calls end.
use Prim.Native.String.{String}
use captive_portal_esp.Base.{◌≡◌, Bool, arith}
use captive_portal_esp.Bytes.{Bytes}
use captive_portal_esp.Esp.{Env, World}
use captive_portal_esp.Storage.{write_file, read_file, delete_file}

module _ (env : Env) where
  pub write_file-usage :
      (name : String) (b : Bytes) (a i : Bool) (w : World)
      → (write_file env name b a i w).1.usage ≡ w.usage
  unfolding write_file
  write_file-usage name b a i w = ground arith

  pub read_file-usage :
      (name : String) (b : Bytes) (w : World) → (read_file env name b w).1.usage ≡ w.usage
  unfolding read_file
  read_file-usage name b w = ground arith

  pub delete_file-usage : (name : String) (w : World) → (delete_file env name w).1.usage ≡ w.usage
  unfolding delete_file
  delete_file-usage name w = ground arith
