-- ===== src/Tests/Workers.antt =====
-- A worker that removes a job, the options of an automation, and a registry with a repeated queue.
use fairway.Base.{
  ◌^◌, ◌-◌, true, List, Option, ◌⊎◌, inl, inr, false, ◌≡◌, refl, [], ◌∷◌, none, some, arith, codes,
}
use fairway.Base.Bytes.{be_bytes, of_be}
use fairway.Fdb.{Str, Tuple, text, stamp}
use fairway.Fdb.Memory.{memory, no_data, scan_memory, set_store, get_store}
use fairway.Fdb.Memory.Ranges.{within, starts, stops, below, is_prefix}
use fairway.Dcb.Types.{Event, StoredEvent, Error, ok}
use fairway.Dcb.Index.{new_store}
use fairway.Dcb.Append.{event_value}
use fairway.Dcb.Decode.Fetched.{decode_event-event_value}
use fairway.Automation.Worker.{Processed, process_job, fetch_event}
use fairway.Automation.Worker.Removal.{process_job_removes}
use fairway.Automation.Types.{done}
use fairway.Automation.Jobs.{encode_job, fresh_job}
use fairway.Automation.Queue.{dequeue, claimable, leased}
use fairway.Automation.Registry.{Made, made}
use fairway.Automation.Options.{
  AutomationOption, default_config, apply_options, apply_option, or_kept, with_batch_size,
  with_lease_ttl,
}
use fairway.Automation.Options.Settings.{settings, IsRunnable, apply_options-IsRunnable}
use fairway.Tests.Automation.{worker, first_key, first_leased, stocked}

-- The event of the first job, stored where the workers look for it.
abbrev happened : StoredEvent
happened = record {
  event = record { event_type = codes "A"; tags = []; payload = [] };
  position = 65536;
}

abbrev event_key : Tuple
event_key =
    text (codes "s")
    ∷ text (codes "e")
    ∷ stamp (record { transaction_version = 1; user_version = 0 })
    ∷ []

with_event : memory.Db
with_event =
    memory.set stocked event_key (event_value memory (new_store (codes "s")) happened.event)

leased_with_event : memory.Db
leased_with_event = memory.set with_event first_key (encode_job first_leased)

dequeued_with_event :
    dequeue memory (worker 1) with_event 5 ≡ done (leased_with_event, first_leased)
unfolding dequeue memory no_data scan_memory set_store get_store within starts stops below is_prefix
    encode_job fresh_job claimable leased with_event leased_with_event stocked be_bytes of_be
dequeued_with_event = refl

event_fetched : fetch_event memory (worker 1) leased_with_event 65536 ≡ ok (some happened)
unfolding fetch_event leased_with_event with_event
event_fetched =
    rw
      (
        fetch_event,
        memory.get-set with_event first_key event_key (encode_job first_leased),
        memory.get-set stocked event_key event_key
            (event_value memory (new_store (codes "s")) happened.event),
        decode_event-event_value memory (codes "s") false happened.event,
      )
      refl

abbrev describes : Error → Str
describes e = []

abbrev deserializes : Event → Str ⊎ Event
deserializes e = inr e

abbrev declines : Event → Option Str
declines e = none

abbrev runs : Str → memory.Db → memory.Db × Option Str
runs cmd d = (d, none)

process_job_removes_example :
    (p : Processed memory (worker 1)) × (process_job memory
        (worker 1)
        describes
        deserializes
        declines
        runs
        leased_with_event
        10
        first_leased
      ≡ done p)
    × (memory.get p.db first_key ≡ none)
    × (p.reported ≡ none)
process_job_removes_example =
    process_job_removes memory (worker 1) describes deserializes declines runs with_event
      leased_with_event 5 10 first_leased happened happened.event (omega arith) dequeued_with_event
      event_fetched refl (inl refl)

-- The second batch size is -5.
abbrev four_options : List AutomationOption
four_options =
    with_batch_size 32 ∷ with_batch_size (2 ^ 64 - 5) ∷ with_lease_ttl 7 ∷ with_batch_size 0 ∷ []

apply_options-IsRunnable_example :
    (apply_options four_options default_config ≡ settings default_config four_options)
    × IsRunnable (apply_options four_options default_config)
apply_options-IsRunnable_example = apply_options-IsRunnable four_options

last_of_options :
    apply_options four_options default_config
    ≡ record default_config { batch_size = 32; lease_ttl = 7 }
unfolding apply_options apply_option or_kept default_config
last_of_options = refl

abbrev three_factories : List Made
three_factories = made (codes "a") true ∷ made (codes "b") true ∷ made (codes "a") true ∷ []
