-- ===== src/Storage/Spec.antt =====
-- What components/spiffs_storage/spiffs_storage.c promises: its calls against a map from names to contents.
use Prim.Native.String.{String}
use captive_portal_esp.Base.{
  ℕ, ◌-◌, Bool, true, false, Option, none, some, List, [], ◌∷◌, ◌++◌, ◌==◌, if◌then◌else◌, length,
  take,
}
use captive_portal_esp.Bytes.{Bytes, c_string}
use captive_portal_esp.Esp.{Env, M, pure, ◌>>=◌, update}
use captive_portal_esp.Storage.{
  is_some, content, file_exists, get_file_size, write_file, read_file, read_file_line, create_file,
  delete_file, rename_file,
}

abbrev pub Files : Type 0
Files = String → Option Bytes

pub data Call : Type 0 where
  exists size create delete : String → Call
  -- the bytes, whether they are appended, whether they are binary
  write : String → Bytes → Bool → Bool → Call
  -- the buffer as it is before the call
  read read_line : String → Bytes → Call
  -- the old name and the new one
  moved : String → String → Call

pub data Answer : Type 0 where
  said : Bool → Answer
  sized : Option ℕ → Answer
  -- the result, and the buffer as it is after the call
  filled : Bool → Bytes → Answer

-- The first bytes of a buffer are overwritten, and bytes that it has no room for are dropped.
abbrev pub overlay : Bytes → Bytes → Bytes
overlay [] buffer = buffer
overlay (c ∷ cs) [] = []
overlay (c ∷ cs) (old ∷ buffer) = c ∷ overlay cs buffer

-- The bytes up to the first newline, which is one of them.
abbrev pub line_of : Bytes → Bytes
line_of [] = []
line_of (c ∷ cs) = if c == 10 then c ∷ [] else c ∷ line_of cs

-- What a call answers and does on a map.
unfoldable pub promised : Call → Files → Answer × Files
promised (Call.exists name) files = (Answer.said (is_some (files name)), files)
promised (Call.size name) files =
    (Answer.sized (elim (files name) [ none ↦ none | some b ↦ some (length b) ]), files)
promised (Call.create name) files = (Answer.said true, update files name (some []))
promised (Call.delete name) files = elim (files name) [
  | none ↦ (Answer.said false, files)
  | some b ↦ (Answer.said true, update files name none)
]
promised (Call.write name bytes appending is_binary) files =
    if length bytes == 0 then (Answer.said false, files) else (
      Answer.said true,
      update files name (
          some (
            (if appending then content (files name) else [])
            ++ (if is_binary then bytes else c_string bytes))),
    )
promised (Call.read name buffer) files =
    if length buffer == 0 then (Answer.filled false buffer, files) else elim (files name) [
      | none ↦ (Answer.filled false buffer, files)
      | some b ↦ (Answer.filled true (overlay b buffer), files)
    ]
promised (Call.read_line name buffer) files = elim (files name) [
  | none ↦ (Answer.filled false buffer, files)
  | some b ↦
      let line = take (length buffer - 1) (line_of b) in
      if length line == 0
      then (Answer.filled false buffer, files)
      else (Answer.filled true (overlay (line ++ 0 ∷ []) buffer), files)
]
promised (Call.moved old_name new_name) files = elim (files old_name) [
  | none ↦ (Answer.said false, files)
  | some b ↦
      if is_some (files new_name)
      then (Answer.said false, files)
      else (Answer.said true, update (update files old_name none) new_name (some b))
]

unfoldable pub promised_all : List Call → Files → List Answer × Files
unfolding promised
promised_all [] files = ([], files)
promised_all (c ∷ cs) files =
    let (answer, files') = promised c files in
    let (answers, files'') = promised_all cs files' in (answer ∷ answers, files'')

abbrev pub answered : {A : Type 0} → (A → Answer) → M A → M Answer
answered f m = m >>= λ a. pure (f a)

abbrev pub fills : Bool × Bytes → Answer
fills (ok, buffer) = Answer.filled ok buffer

module _ (env : Env) where
  unfoldable pub perform : Call → M Answer
  perform (Call.exists name) = answered Answer.said (file_exists name)
  perform (Call.size name) = answered Answer.sized (get_file_size name)
  perform (Call.create name) = answered Answer.said (create_file env name)
  perform (Call.delete name) = answered Answer.said (delete_file env name)
  perform (Call.write name bytes appending is_binary) =
      answered Answer.said (write_file env name bytes appending is_binary)
  perform (Call.read name buffer) = answered fills (read_file env name buffer)
  perform (Call.read_line name buffer) = answered fills (read_file_line env name buffer)
  perform (Call.moved old_name new_name) = answered Answer.said (rename_file env old_name new_name)

  unfoldable pub perform_all : List Call → M (List Answer)
  unfolding perform
  perform_all [] = pure []
  perform_all (c ∷ cs) = do answer ← perform c; answers ← perform_all cs; pure (answer ∷ answers)
