-- ===== src/Ledger/Paired.antt =====
-- How long a pairing is told.
use mcu_updater.Base.{
  ℕ, ◌≡◌, ◌≢◌, refl, sym, ◌∙◌, true, false, not, Option, none, some, String, str_eq, str_eq_iff,
  leb, ◌-◌, arith, if◌then◌else◌,
}
use mcu_updater.Base.Dict.{get, get-put, get-remove}
use mcu_updater.Base.Result.{err}
use mcu_updater.Ledger.Defs.{
  Pairing, Pairings, os_error, write_pairings, record_pairing, is_fresh, type_of, type_for,
  forget_pairing,
}

get-record_pairing :
    (ps : Pairings) (now : ℕ) (key asked mcu_type : String)
    → key ≢ ""
    → get (record_pairing true ps now key mcu_type).1 asked ≡ (
        if str_eq key asked
        then some (record { mcu_type = mcu_type; at = some now })
        else get ps asked)
unfolding record_pairing write_pairings
get-record_pairing ps now key asked mcu_type ne =
    let filled : str_eq key "" ≡ false = ground (arith, str_eq_iff key "", ne) in
    let kept = get-put ps key asked (record { mcu_type = mcu_type; at = some now }) in
    rw filled kept

type_for_found :
    (ttl later : ℕ) (ps : Pairings) (key : String) (o : Option Pairing)
    → get ps key ≡ o
    → type_for ttl ps later key ≡ (elim o as (λ _. Option String) [
      | none ↦ none
      | some p ↦ if not (is_fresh ttl later p) then none else type_of p
    ])
unfolding type_for
type_for_found ttl later ps key o e = rw (e, type_for) refl

get-forget_pairing : (ps : Pairings) (key : String) → get (forget_pairing true ps key).1 key ≡ none
unfolding forget_pairing write_pairings
get-forget_pairing ps key =
    let gone = get-remove ps key key in
    let same : str_eq key key ≡ true = ground (arith, str_eq_iff key key) in
    ground (arith, gone, same)

-- Each board is told the type it was paired with last, while the pairing is within its TTL: pairing one
-- board leaves every other as it was, and a pairing that was forgotten is not told again. That is where
-- the file can be replaced; where it cannot, noting a pairing raises and leaves the pairings as they were.
pub type_for-record_pairing :
    (ttl now later : ℕ) (ps : Pairings) (key other mcu_type : String)
    → key ≢ ""
    → (type_for ttl (record_pairing true ps now key mcu_type).1 later key ≡ (
        if leb (later - now) ttl
        then type_of (record { mcu_type = mcu_type; at = some now })
        else none))
      × (other ≢ key
          → type_for ttl (record_pairing true ps now key mcu_type).1 later other
            ≡ type_for ttl ps later other)
      × (type_for ttl (forget_pairing true ps key).1 later key ≡ none)
      × (record_pairing false ps now key mcu_type ≡ (err os_error, ps))
unfolding is_fresh record_pairing write_pairings
type_for-record_pairing ttl now later ps key other mcu_type ne =
    let same : str_eq key key ≡ true = ground (arith, str_eq_iff key key) in
    let filled : str_eq key "" ≡ false = ground (arith, str_eq_iff key "", ne) in
    let mine = get-record_pairing ps now key key mcu_type ne in
    let its = get-record_pairing ps now key other mcu_type ne in
    let told =
      type_for_found ttl later (record_pairing true ps now key mcu_type).1 key _
        (rw same at mine) in
    (
      told ∙ ground arith,
      λ d.
          let apart : str_eq key other ≡ false = ground (arith, str_eq_iff key other, d) in
          type_for_found ttl later (record_pairing true ps now key mcu_type).1 other _
            (rw apart at its)
          ∙ sym (type_for_found ttl later ps other _ refl),
      type_for_found ttl later (forget_pairing true ps key).1 key none (get-forget_pairing ps key),
      rw filled refl,
    )
