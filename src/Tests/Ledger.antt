-- ===== src/Tests/Ledger.antt =====
-- A board whose record is of the commit it reports, and a pairing that was noted a minute ago.
use mcu_updater.Base.{
  String, ◌-◌, ◌≡◌, ◌≢◌, true, false, Option, none, some, ◌↔◌, [], leb, if◌then◌else◌,
}
use mcu_updater.Base.Text.{Text, codes}
use mcu_updater.Base.Dict.{get}
use mcu_updater.Base.Result.{err}
use mcu_updater.Ledger.Defs.{
  os_error, Entry, FlashLog, entry_of, entry_for, record_flash, Pairings, record_pairing, type_for,
  type_of, forget_pairing,
}
use mcu_updater.Ledger.Believed.{Contradicts, entry_for_iff}
use mcu_updater.Ledger.Paired.{type_for-record_pairing}

abbrev flashed : Entry
flashed = record {
  mcu_type = "ebb";
  fw = "klipper";
  bin_sha256 = some "aa";
  fw_sha = some (codes "abcdef0");
  confidence = none;
  version = none;
}

abbrev log : FlashLog
log = record_flash true [] "s1" flashed

abbrev sha : Option Text
sha = some (codes "abcdef0")

entry_for_iff_example :
    (entry_for log "s1" sha none ≡ some flashed)
    ↔ ((entry_of (get log "s1") ≡ some flashed) × (Contradicts flashed sha none → ⊥))
entry_for_iff_example = entry_for_iff log "s1" sha none flashed

abbrev pairings : Pairings
pairings = []

abbrev key : String
key = "k1"

abbrev other : String
other = "k2"

type_for-record_pairing_example :
    (type_for 86400 (record_pairing true pairings 100 key "ebb").1 160 key ≡ (
      if leb (160 - 100) 86400 then type_of (record { mcu_type = "ebb"; at = some 100 }) else none))
    × (other ≢ key
        → type_for 86400 (record_pairing true pairings 100 key "ebb").1 160 other
          ≡ type_for 86400 pairings 160 other)
    × (type_for 86400 (forget_pairing true pairings key).1 160 key ≡ none)
    × (record_pairing false pairings 100 key "ebb" ≡ (err os_error, pairings))
type_for-record_pairing_example =
    type_for-record_pairing 86400 100 160 pairings key other "ebb" (λ e. cc e)
