-- ===== src/Lib.antt =====
-- mcu-updater manages the firmware of a printer's boards: it builds images, knows what each board
-- runs, decides which boards need a flash, and writes them with the printer's services stopped.
--
-- The parts, the file that models each, and how they fit together:
--
-- * Status models src/mcu_updater/states.py, verdict.py and DeviceInfo of device_info.py. A status is a
--   reason; its tone, its state and whether a flash is needed are tables of the reason. `decide` takes
--   what a device says of itself (Evidence) and what this host knows (Expected) and gives a
--   DeviceStatus. Strings with a closed vocabulary are constructors; version strings are lists of
--   character codes.
-- * Uf2 models src/mcu_updater/uf2.py: `_blocks` (blocks), extract_image, image_extent, image_digest,
--   _linked_length and digest_fields. A file is the list of its bytes, and a file that cannot be read
--   is none. Uf2Error has a constructor for each message.
-- * Erase models with_erased_sector and _blocks of src/mcu_updater/uf2_erase.py. struct.pack refuses a
--   field of more than 32 bits, which is the error pack_error; sorted is an insertion sort that is
--   stable as Python's is.
-- * Service models src/mcu_updater/service.py: the crash journal, services_stopped, reconcile and
--   assert_printer_idle. A run keeps the history of what it did, the latest event first; the record
--   Host answers, as a function of that history, what systemd or Moonraker would: whether a unit is
--   active, and whether the journal can be written. The controllers' start and stop never raise. A kill
--   of the process leaves a tail of the history, and what an earlier run left in the journal is the
--   event `left` at its beginning. Exceptions are values of Exc.
-- * Batch models write_all of src/mcu_updater/flashers/batch.py, FlashTarget and FlashRecord of
--   flashers/spec.py and the grouping of flashers/registry.py. Prog is the monad of steps that raise
--   and leave a history. The protocol Flasher is a record of functions whose answers depend on the
--   history. Batch uses services_stopped of Service; the ledger is written by the event `filed`.
-- * Jobs models src/mcu_updater/jobs.py: the ring buffer of a Job's log, and JobRunner's submit, cancel
--   and worker as a step relation (Step, Reachable) in which the steps of callers and of worker threads
--   interleave: Phase is where the thread of a job is, and each step is a block under the slot lock or a
--   statement between two. Whether the lock file is free is an argument of submit, and whether the thread
--   starts one of start. Consistent and Slot hold the invariant, Final what it gives for a finished job.
-- * Ledger models FlashLog of src/mcu_updater/build.py and src/mcu_updater/flashers/pairings.py. A JSON
--   file is the dictionary in it; whether it can be replaced is an argument: FlashLog swallows the
--   OSError, Pairings raises it. Times and the TTL are numbers of one unit.
-- * Select models Staged.first_of of src/mcu_updater/artifacts.py, `resolve` of flashers/registry.py and
--   resolve_stop_services of stop_services.py. A flasher is what it answers for the one device.
-- * Cfg models src/mcu_updater/cfgdoc.py: Line the regular expressions and line tests, Parse the parser
--   (CfgDocument._parse), Render the decoration and the lines of an option, Doc the reading and editing
--   methods. A document is its lines and whether it is frozen; its sections are the parser's answer on
--   the lines, as the code parses again after each edit. Content is a reader of the same lines without
--   positions, which the proofs compare: Erased, Patch, Continued, Beginning, Rewrite, Span, Located,
--   Sited, Strip, Written, Setting, Edits and Saved lead to the results. Single is what an empty duplicate_sections means.
-- * Lock models src/mcu_updater/lock.py. An actor is one open lock file; Phase is where it is in
--   acquire, release or holder, a step of the code is a step of the model, and a schedule says who
--   takes the next step or is killed. An actor that holds the lock and calls acquire or holder opens
--   the file anew, and is told that it is taken. The kernel's flock and the record in the file are LockFile.
--   Kept, Spares and Exclusion hold the invariant, Again what the second call is told.
-- * Types models src/mcu_updater/typelist.py, sections.py and the families of firmware.py, from the text
--   of the configuration (through Cfg) to the types that `load` returns or the error it raises. An
--   error carries its data; its text and its path are left out.
-- * Registry models the type names, lookups and edits of src/mcu_updater/config.py: Names the rule for a
--   type's name, Defs the types in memory and who tracks what, Edits what reaches the document, Uses
--   what a type runs and, with for_mcu of stop_services.py, the units that a write of it stops. A
--   serial and a CAN uuid have the same code twice there and are one function of the Identity here.
-- * Provision models auto_provision of src/mcu_updater/provisioning.py over the families of Types: Auto
--   the sweep, Asked and Safe what it writes to. A helper's answers, and whether the lock is free, are functions
--   of the attempts before.
-- * Tracking models src/mcu_updater/tracking.py over Registry: Defs the calls, Writes when a board is
--   written to. The registry is an argument twice, as it is read before the write and under the lock.
-- * Base has the helpers: Boolean tests, lists over the native numbers, text, dictionaries, little-endian
--   words, results.
-- * Tests has the examples.
--
-- Loops over a range run on the number of rounds that the range has, so no bound is chosen there: the
-- reader of a container of n bytes makes n / 512 rounds. The verification of a stop waits 20 s in
-- sleeps of 0.5 s, which are 40 rounds; the time that the polls take is not counted.
--
-- Not modelled: the texts of labels and messages, reports and progress, file access, the readiness
-- check that a caller passes to write_all, the command line and the agent's transport and handlers;
-- the builds and the flashers that run other programs; the discovery of devices and the helpers that
-- speak to them; profiles, settings and the snapshot cache; building a Registry from a document and
-- writing it back.
pub mod Base
pub mod Status
pub mod Uf2
pub mod Erase
pub mod Service
pub mod Batch
pub mod Jobs
pub mod Ledger
pub mod Select
pub mod Cfg
pub mod Lock
pub mod Types
pub mod Registry
pub mod Provision
pub mod Tracking
mod Tests
