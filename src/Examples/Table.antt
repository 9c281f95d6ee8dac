-- ===== src/Examples/Table.antt =====
-- Objects: sources/core/ObjectFactory.cpp and sources/core/objects/ObjectProcessor.cpp.
use griefly.Prelude.{
  ℕ, ◌==◌, ◌-◌, if◌then◌else◌, ◌+◌, ◌≡◌, refl, true, false, Option, none, some, List, [], ◌∷◌,
  get_elem?, set, replicate,
}
use griefly.Prelude.Int.{ℤ, pos, ◌%ℤ◌}
use griefly.Objects.{
  ObjectFactory, new_factory, take_id, put, create_impl, create_void, place_in_owner, is_valid,
  announce, delete_later, get_from_id_table, process_deletion,
}
use griefly.Objects.Validity.{IsValid, Entry}
use griefly.Objects.Deletion.{Dead, process_deletion_frees}
use griefly.Objects.Histories.{
  Event, creates, loads, deletes, step, run, ValidIfAny-some, run-new-ValidIfAny,
}
use griefly.Processor.{ObjectProcessor, nothing_ticks, run_process, add}
use griefly.Processor.Pass.{
  IsConsistent, nothing_ticks-IsConsistent, add-IsConsistent, run_process-IsConsistent,
}
use griefly.Processor.Calls.{due_before_stale, process_each, run_process_calls}

-- Two objects are made and one is loaded, for which the table grows; the first is deleted.
abbrev history : List Event
history = creates true 0 ∷ creates false 1 ∷ loads false 150 ∷ deletes 1 ∷ []

abbrev settled : (owner id : ℕ) → ObjectFactory → Option ObjectFactory
settled owner id f = some f

abbrev awake : (id : ℕ) → ObjectFactory → Option ObjectFactory
awake id f = some f

abbrev loaded : ObjectFactory
loaded = record {
  objects_table = set (set (set (replicate 300 none) 1 (some 0)) 2 (some 1)) 150 (some 2);
  next_id = 151;
  is_world_generating = true;
  ids_to_delete = [];
  hearers = 1 ∷ [];
  heap =
      record { id = 1; to_hearer = true; is_alive = true }
      ∷ record { id = 2; to_hearer = false; is_alive = true }
      ∷ record { id = 150; to_hearer = false; is_alive = true }
      ∷ [];
}

abbrev waiting : ObjectFactory
waiting = record loaded {
  objects_table = set loaded.objects_table 1 none;
  ids_to_delete = some 0 ∷ [];
}

waiting-run : run settled awake history new_factory ≡ some waiting
unfolding run step create_impl take_id put place_in_owner is_valid get_from_id_table announce
    create_void delete_later new_factory
waiting-run = refl

run-new-ValidIfAny_example : IsValid waiting
run-new-ValidIfAny_example =
    run-new-ValidIfAny settled awake (λ owner id f valid. ValidIfAny-some f valid)
      (λ id f valid. ValidIfAny-some f valid) history waiting waiting-run

waiting-IsValid : IsValid waiting
waiting-IsValid =
    run-new-ValidIfAny settled awake (λ owner id f valid. ValidIfAny-some f valid)
      (λ id f valid. ValidIfAny-some f valid) history waiting waiting-run

process_deletion_frees_example :
    (g : ObjectFactory) × (process_deletion waiting ≡ some g)
    × IsValid g
    × (g.ids_to_delete ≡ [])
    × ((k a : ℕ) → Entry waiting.ids_to_delete k a → Dead g.heap a)
    × ((i a : ℕ) → Entry waiting.objects_table i a → get_elem? g.heap a ≡ get_elem? waiting.heap a)
process_deletion_frees_example = process_deletion_frees waiting waiting-IsValid

-- Three objects that tick every second, fifth and tenth time; 7 is gone.
abbrev frequencies : ℕ → Option ℤ
frequencies n = if n == 7 then none else some (pos (n - 2))

abbrev counts : ℕ → ℕ → (ℕ × List ℕ)
counts calls object = (calls + 1, (object + 10) ∷ [])

abbrev tickers : ObjectProcessor
tickers = add 12 (add 7 (add 4 nothing_ticks))

tickers-IsConsistent : IsConsistent tickers
tickers-IsConsistent =
    add-IsConsistent 12 _ (add-IsConsistent 7 _ (add-IsConsistent 4 _ nothing_ticks-IsConsistent))

run_process-IsConsistent_example :
    (v : ℕ) × (q : ObjectProcessor) × (run_process (λ w. frequencies) counts (pos 10) 0 tickers
      ≡ some (v, q))
    × IsConsistent q
run_process-IsConsistent_example =
    run_process-IsConsistent (λ w. frequencies) counts (pos 10) 0 tickers tickers-IsConsistent

run_process_calls_example :
    (q : ObjectProcessor) × (run_process (λ w. frequencies) counts (pos 10) 0 tickers
      ≡ some (process_each counts (due_before_stale frequencies (pos 10) tickers.objects) 0, q))
run_process_calls_example = run_process_calls frequencies counts (pos 10) 0 tickers

-- Only the first of them is called in a tick in which the last one is due, too.
last_is_left_out : due_before_stale frequencies (pos 10) (4 ∷ 7 ∷ 12 ∷ []) ≡ 4 ∷ []
unfolding due_before_stale ◌%ℤ◌
last_is_left_out = refl
