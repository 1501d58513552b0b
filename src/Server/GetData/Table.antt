-- ===== src/Server/GetData/Table.antt =====
-- What the names in a request stand for, as a table, for `get_data_rsp_string` of
-- components/app_local_server/app_local_server.c.
use mathlib.Core.List.{append-nil}
use captive_portal_esp.Base.{
  ℕ, ◌+◌, ◌%◌, ◌≡◌, refl, ap, ◌∙◌, Bool, true, false, List, [], ◌∷◌, ◌++◌, if◌then◌else◌, arith,
}
use captive_portal_esp.Bytes.{Bytes, codes}
use captive_portal_esp.Text.{decimal}
use captive_portal_esp.Server.Times.{date_text, c_string-time_string}
use captive_portal_esp.Server.GetData.{Readings, contains, pair_text, comma}
use captive_portal_esp.Server.GetData.Tokens.{names}
use captive_portal_esp.Server.GetData.Values.{InFormat}

-- A part of a name, and the value that a name with it stands for when it is the `i`-th.
abbrev table : Readings → ℕ → List (Bytes × Bytes)
table r i =
    (codes "SSID", r.ssid)
    ∷ (codes "Temp", decimal (r.rand i % 100))
    ∷ (codes "Humidity", decimal (r.rand i % 100))
    ∷ (codes "UTC", date_text (r.utc_time i))
    ∷ (codes "Local", date_text (r.local_time i))
    ∷ (codes "CompileTime", r.compile_time)
    ∷ (codes "CompileDate", r.compile_date)
    ∷ (codes "FirmwareVersion", codes "V1.0.0")
    ∷ (codes "WiFiStatus", decimal (r.wifi_connect_status i))
    ∷ []

-- The first part in the name with its value, in quotes; or the name and an empty value.
abbrev pair_for : List (Bytes × Bytes) → Bytes → Bytes
pair_for [] name = codes "\"" ++ (name ++ codes "\":\"\"")
pair_for ((part, value) ∷ more) name =
    if contains part name
    then codes "\"" ++ (part ++ (codes "\":\"" ++ (value ++ codes "\"")))
    else pair_for more name

-- The pairs for the names, with commas between them.
abbrev pairs_for : Readings → ℕ → List Bytes → Bytes
pairs_for r i [] = []
pairs_for r i (name ∷ []) = pair_for (table r i) name
pairs_for r i (name ∷ (other ∷ more)) =
    pair_for (table r i) name ++ (codes "," ++ pairs_for r (i + 1) (other ∷ more))

abbrev pub expected_object : Readings → Bytes → Bytes
expected_object r key = codes "{" ++ (pairs_for r 0 (names key) ++ codes "}")

-- What the loop prints for names; `is_comma` says whether a comma goes before the first.
abbrev pub joined : Readings → ℕ → Bool → List Bytes → Bytes
joined r i is_comma [] = []
joined r i is_comma (name ∷ more) =
    (comma is_comma ++ pair_text r i name) ++ joined r (i + 1) true more

pair_text_lem :
    {r : Readings} (f : InFormat r) (i : ℕ) (name : Bytes)
    → pair_text r i name ≡ pair_for (table r i) name
unfolding pair_text
pair_text_lem {r} f i name =
    rw
      (
        c_string-time_string (r.stale i) 20 (f.utc_range i) (omega arith),
        c_string-time_string (r.stale i) 20 (f.local_range i) (omega arith),
      )
      refl

pub joined_lem :
    {r : Readings} (f : InFormat r) (i : ℕ) (ns : List Bytes)
    → joined r i false ns ≡ pairs_for r i ns
joined_lem f i [] = refl
joined_lem {r} f i (name ∷ []) = append-nil (pair_text r i name) ∙ pair_text_lem f i name
joined_lem {r} f i (name ∷ (other ∷ more)) =
    ap (λ b. b ++ joined r (i + 1) true (other ∷ more)) (pair_text_lem f i name)
    ∙ ap (λ b. pair_for (table r i) name ++ (codes "," ++ b)) (joined_lem f (i + 1) (other ∷ more))
