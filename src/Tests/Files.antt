-- ===== src/Tests/Files.antt =====
-- Calls of the file storage on a device where nothing fails.
use Prim.Native.String.{String}
use text.Mathlib.Text.{◌==◌ as str_eq}
use captive_portal_esp.Base.{◌≡◌, ◌≢◌, ap, refl, true, false, some, List, [], ◌∷◌, ◌++◌, arith}
use captive_portal_esp.Bytes.{codes}
use captive_portal_esp.Text.{zeros}
use captive_portal_esp.Storage.Spec.{Call, Answer, promised_all, perform_all}
use captive_portal_esp.Storage.Kept.{perform_all-Keeps}
use captive_portal_esp.Storage.SelfTest.{rename_file-read_back}
use captive_portal_esp.Tests.Device.{calm, calm-Reliable, fresh}

abbrev file_calls : List Call
file_calls =
    Call.create "/spiffs/a"
    ∷ Call.write "/spiffs/a" (codes "one" ++ 10 ∷ []) true false
    ∷ Call.write "/spiffs/a" (codes "two") true true
    ∷ Call.read_line "/spiffs/a" (zeros 6)
    ∷ Call.moved "/spiffs/a" "/spiffs/a"
    ∷ Call.delete "/spiffs/b"
    ∷ []

file_calls_answers :
    (promised_all file_calls fresh.files).0
    ≡ Answer.said true
      ∷ Answer.said true
      ∷ Answer.said true
      ∷ Answer.filled true (codes "one" ++ 10 ∷ 0 ∷ 0 ∷ [])
      ∷ Answer.said false
      ∷ Answer.said false
      ∷ []
unfolding promised_all
file_calls_answers = refl

perform_all-Keeps_example :
    ((perform_all calm file_calls fresh).0 ≡ (promised_all file_calls fresh.files).0)
    × ((perform_all calm file_calls fresh).1.files ≡ (promised_all file_calls fresh.files).1)
perform_all-Keeps_example = perform_all-Keeps calm-Reliable (λ t. refl) file_calls fresh

abbrev old_file : String
old_file = "/spiffs/a"

names_differ : old_file ≢ "/spiffs/b"
names_differ e = let same : true ≡ false = ap (str_eq old_file) e in cc same

rename_file-read_back_example :
    (perform_all calm
      (Call.write "/spiffs/a" (codes "text") false true
        ∷ Call.moved "/spiffs/a" "/spiffs/b"
        ∷ Call.exists "/spiffs/a"
        ∷ Call.size "/spiffs/b"
        ∷ Call.read "/spiffs/b" (zeros 6)
        ∷ Call.delete "/spiffs/b"
        ∷ Call.exists "/spiffs/b"
        ∷ [])
      fresh).0
    ≡ Answer.said true
      ∷ Answer.said true
      ∷ Answer.said false
      ∷ Answer.sized (some 4)
      ∷ Answer.filled true (codes "text" ++ 0 ∷ 0 ∷ [])
      ∷ Answer.said true
      ∷ Answer.said false
      ∷ []
rename_file-read_back_example =
    rename_file-read_back calm-Reliable (λ t. refl) "/spiffs/a" "/spiffs/b" (codes "text") (zeros 6)
      fresh refl names_differ refl (omega arith)
