-- ===== src/Storage/SelfTest.antt =====
-- `spiffs_storage_test` of components/spiffs_storage/spiffs_storage.c, which writes a file, renames it and reads it
-- back, and the same for any content and the component's own calls.
use Prim.Native.String.{String}
use text.Mathlib.Text.{◌==◌ as str_eq}
use text.Mathlib.TextPositions.{eq_refl}
use text.Mathlib.TextEquality.{eq_iff}
use captive_portal_esp.Base.{
  ℕ, ◌+◌, ◌≤◌, ◌≡◌, ◌≢◌, sym, refl, ◌∙◌, true, false, not, Option, none, some, List, [], ◌∷◌, ◌++◌,
  ◌==◌, if◌then◌else◌, length, take, drop, arith, Bool-cases, inl, inr,
}
use captive_portal_esp.Bytes.{Bytes, c_string, codes}
use captive_portal_esp.Esp.{Env, World, M, pure, ◌>>=◌, ◌>>◌, Reliable, update, uninitialised}
use captive_portal_esp.Storage.{
  is_some, overwrite, file_exists, fopen_write, fwrite, fclose_write, unlink, rename, fopen_read,
  fread, first_line,
}
use captive_portal_esp.Storage.Spec.{Files, Call, Answer, promised, promised_all, perform_all}
use captive_portal_esp.Storage.Buffers.{overlay-fits}
use captive_portal_esp.Storage.Kept.{perform_all-Keeps}

abbrev hello : String
hello = "/spiffs/hello.txt"

abbrev foo : String
foo = "/spiffs/foo.txt"

-- `*pos = '\0'` at the first newline, if there is one
abbrev strip_newline : Bytes → Bytes
strip_newline [] = []
strip_newline (c ∷ cs) = if c == 10 then 0 ∷ cs else c ∷ strip_newline cs

module _ (env : Env) where
  -- The text that is logged at the end, or none if the test ended before.
  unfoldable pub spiffs_storage_test : M (Option Bytes)
  unfolding fopen_write fwrite fclose_write file_exists unlink rename fopen_read fread
  spiffs_storage_test = do
    f ← fopen_write env hello overwrite
    if not f then pure none else do
      let text = codes "Hello World!" ++ 10 ∷ []
      written ← fwrite env text
      fclose_write env hello (take written text)
      there ← file_exists foo
      (if there then unlink env foo else pure true)
      moved ← rename env hello foo
      if not moved then pure none else do
        f ← fopen_read env foo
        if not f then pure none else do
          line ← uninitialised env 64
          got ← fread env foo 63
          let read = first_line env 63 got
          let line' =
              if length read == 0 then line else (read ++ 0 ∷ []) ++ drop (length read + 1) line
          pure (some (c_string (strip_newline line')))

names_differ : (a b : String) → a ≢ b → str_eq a b ≡ false
names_differ a b h = elim (Bool-cases (str_eq a b)) [
  | inl t ↦ absurd (h ((eq_iff a b).0 t))
  | inr f ↦ f
]

promised_all-then :
    (c : Call) (cs : List Call) (files : Files) {files' : Files} {answer : Answer}
    {answers : List Answer}
    → promised c files ≡ (answer, files')
    → (promised_all cs files').0 ≡ answers
    → (promised_all (c ∷ cs) files).0 ≡ answer ∷ answers
unfolding promised_all
promised_all-then c cs files now later = rw (now, later) refl

promised_all-empty : (files : Files) → (promised_all [] files).0 ≡ []
unfolding promised_all
promised_all-empty files = refl

module _ (files : Files) (name : String) (bytes : Bytes) where
  promised-write :
      (length bytes == 0) ≡ false
      → promised (Call.write name bytes false true) files
        ≡ (Answer.said true, update files name (some bytes))
  unfolding promised
  promised-write full = rw full refl

  promised-exists :
      (there : Option Bytes)
      → files name ≡ there
      → promised (Call.exists name) files ≡ (Answer.said (is_some there), files)
  unfolding promised
  promised-exists there e = rw e refl

  module _ (there : files name ≡ some bytes) where
    promised-size : promised (Call.size name) files ≡ (Answer.sized (some (length bytes)), files)
    unfolding promised
    promised-size = rw there refl

    promised-read :
        (buffer : Bytes)
        → length bytes + 1 ≤ length buffer
        → promised (Call.read name buffer) files
          ≡ (Answer.filled true (bytes ++ drop (length bytes) buffer), files)
    unfolding promised
    promised-read buffer fits =
        let room : (length buffer == 0) ≡ false = ground (arith, fits) in
        rw (there, room, overlay-fits bytes buffer (omega (arith, fits))) refl

    promised-delete : promised (Call.delete name) files ≡ (Answer.said true, update files name none)
    unfolding promised
    promised-delete = rw (promised, there) refl

    promised-moved :
        (new_name : String)
        → files new_name ≡ none
        → promised (Call.moved name new_name) files
          ≡ (Answer.said true, update (update files name none) new_name (some bytes))
    unfolding promised
    promised-moved new_name free = rw (promised, there, free) refl

module _ {env : Env} (rel : Reliable env) (renames : (t : ℕ) → env.rename_ok t ≡ true) where
  -- The self-test passes, whatever files are there.
  spiffs_storage_test_lem :
      (w : World) → (spiffs_storage_test env w).0 ≡ some (codes "Hello World!")
  unfolding spiffs_storage_test fopen_write fwrite fclose_write file_exists unlink rename fopen_read
      fread first_line uninitialised
  spiffs_storage_test_lem w = elim (Bool-cases (is_some (w.files foo))) [
    | inl t ↦ rw (rel.fopen_ok w.tick) (
        simp (
          rel.fwrite_count, rel.flush_count, t, rel.unlink_ok, renames, rel.fopen_ok,
          rel.fread_count,
        ))
    | inr f ↦
        rw (rel.fopen_ok w.tick)
          (simp (rel.fwrite_count, rel.flush_count, f, renames, rel.fopen_ok, rel.fread_count))
  ]

  -- Where no platform call fails: bytes written to a file, which is then renamed to another name
  -- that is free, are read back under the new name in front of what the larger buffer held; the
  -- old name is gone, the size is theirs, and after a deletion the new name is gone too.
  pub rename_file-read_back :
      (old_name new_name : String) (bytes buffer : Bytes) (w : World)
      → w.files new_name ≡ none
      → old_name ≢ new_name
      → (length bytes == 0) ≡ false
      → length bytes + 1 ≤ length buffer
      → (perform_all env
          (Call.write old_name bytes false true
            ∷ Call.moved old_name new_name
            ∷ Call.exists old_name
            ∷ Call.size new_name
            ∷ Call.read new_name buffer
            ∷ Call.delete new_name
            ∷ Call.exists new_name
            ∷ [])
          w).0
        ≡ Answer.said true
          ∷ Answer.said true
          ∷ Answer.said false
          ∷ Answer.sized (some (length bytes))
          ∷ Answer.filled true (bytes ++ drop (length bytes) buffer)
          ∷ Answer.said true
          ∷ Answer.said false
          ∷ []
  rename_file-read_back old_name new_name bytes buffer w free different full fits =
      let written : Files = update w.files old_name (some bytes) in
      let renamed : Files = update (update written old_name none) new_name (some bytes) in
      let old_new = names_differ old_name new_name different in
      let new_old = names_differ new_name old_name (λ e. different (sym e)) in
      let left : Files = update renamed new_name none in
      let there : renamed new_name ≡ some bytes = simp eq_refl in
      let gone : renamed old_name ≡ none = simp (new_old, eq_refl) in
      (perform_all-Keeps rel renames _ w).0
      ∙ promised_all-then _ _ _ (promised-write w.files old_name bytes full) (
          promised_all-then _ _ _
            (promised-moved written old_name bytes (simp eq_refl) new_name (simp (old_new, free)))
            (promised_all-then _ _ _ (promised-exists renamed old_name bytes none gone) (
              promised_all-then _ _ _ (promised-size renamed new_name bytes there) (
                promised_all-then _ _ _ (promised-read renamed new_name bytes there buffer fits) (
                  promised_all-then _ _ _ (promised-delete renamed new_name bytes there) (
                    promised_all-then _ _ _
                      (promised-exists left new_name bytes none (simp eq_refl))
                      (promised_all-empty left)))))))
