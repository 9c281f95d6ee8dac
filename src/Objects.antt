-- ===== src/Objects.antt =====
-- The table of objects: ObjectFactory of sources/core/ObjectFactory.cpp, and the lookup of an IdPtr in
-- sources/core/Idptr.h. A pointer is an address in `heap`, where `new` puts an object at the end and
-- `delete` of a dead object is undefined behaviour. That, an index out of the table and kv::Abort are
-- `none`. The placing of a new object in its owner and AfterWorldCreation are virtual functions of the
-- game's objects, and parameters.
pub mod Validity
pub mod Operations
pub mod Deletion
pub mod Histories
pub mod Ids
use griefly.Prelude.{
  ℕ, zero, suc, ◌+◌, ◌*◌, ◌-◌, ◌%◌, ◌^◌, Bool, true, false, not, ltb, leb, if◌then◌else◌, Option,
  none, some, List, [], ◌∷◌, ◌++◌, length, take, replicate, get_elem?, set,
}

infixl 5 ◌>>=◌
abbrev pub ◌>>=◌ {ℓ κ} : {A : Type ℓ} {B : Type κ} → Option A → (A → Option B) → Option B
none >>= next = none
some a >>= next = next a

pub record Object : Type 0 where
  pub id : ℕ
  pub to_hearer : Bool
  pub is_alive : Bool

pub record ObjectFactory : Type 0 where
  pub objects_table : List (Option ℕ)
  pub next_id : ℕ
  pub is_world_generating : Bool
  pub ids_to_delete : List (Option ℕ)
  pub hearers : List ℕ
  pub heap : List Object

-- ObjectFactory::ObjectFactory
unfoldable pub new_factory : ObjectFactory
new_factory = record {
  objects_table = replicate 100 none;
  next_id = 1;
  is_world_generating = true;
  ids_to_delete = [];
  hearers = [];
  heap = [];
}

-- std::vector::resize
abbrev pub resize : ℕ → List (Option ℕ) → List (Option ℕ)
resize n xs = take n xs ++ replicate (n - length xs) none

-- An id's table, large enough for it, or larger than all ids have room in.
abbrev pub make_room : ℕ → List (Option ℕ) → List (Option ℕ)
make_room id table = if leb (length table) id then resize (id * 2 % 2 ^ 32) table else table

-- The entry of an id, with a new object of that id.
unfoldable pub put : ℕ → Bool → ObjectFactory → Option ObjectFactory
put id to_hearer f =
    let table = make_room id f.objects_table in
    if ltb id (length table)
    then some (record f {
      objects_table = set table id (some (length f.heap));
      heap = f.heap ++ (record { id = id; to_hearer = to_hearer; is_alive = true } ∷ []);
    })
    else none

-- CreateVoid
unfoldable pub create_void : Bool → ℕ → ObjectFactory → Option ObjectFactory
create_void to_hearer id_new f =
    put id_new to_hearer
      (record f { next_id = if leb f.next_id id_new then (id_new + 1) % 2 ^ 32 else f.next_id })

-- GetFromIdTable
unfoldable pub get_from_id_table : ℕ → ObjectFactory → Option (Option ℕ)
get_from_id_table id f = get_elem? f.objects_table id

-- IdPtr::IsValid, for a pointer to any object: without a cached address
unfoldable pub is_valid : ℕ → ObjectFactory → Option Bool
unfolding get_from_id_table
is_valid zero f = some false
is_valid (suc id) f = elim (get_from_id_table (suc id) f) [
  | none ↦ none
  | some none ↦ some false
  | some (some a) ↦ some true
]

-- CreateImpl up to the owner: the new id, and the factory.
unfoldable pub take_id : Bool → ObjectFactory → Option ObjectFactory
take_id to_hearer f = do
  g ← put f.next_id to_hearer f
  some (record g { next_id = (f.next_id + 1) % 2 ^ 32 })

-- CreateImpl's last part: the hearers.
abbrev pub hear : Bool → ℕ → ObjectFactory → ObjectFactory
hear to_hearer id f = if to_hearer then record f { hearers = f.hearers ++ (id ∷ []) } else f

module _ (place : ℕ → ℕ → ObjectFactory → Option ObjectFactory)
    (after_world_creation : ℕ → ObjectFactory → Option ObjectFactory) where
  -- The owner's SetTurf or AddObject, for an owner that is valid.
  unfoldable pub place_in_owner : ℕ → ℕ → ObjectFactory → Option ObjectFactory
  place_in_owner owner id f = do
    valid ← is_valid owner f
    if valid then place owner id f else some f

  unfoldable pub announce : Bool → ℕ → ObjectFactory → Option ObjectFactory
  announce to_hearer id f =
      let g = hear to_hearer id f in
      if g.is_world_generating then some g else after_world_creation id g

  -- CreateImpl
  unfoldable pub create_impl : Bool → ℕ → ObjectFactory → Option (ℕ × ObjectFactory)
  create_impl to_hearer owner f = do
    g ← take_id to_hearer f
    h ← place_in_owner owner f.next_id g
    k ← announce to_hearer f.next_id h
    some (f.next_id, k)

  -- FinishWorldCreation, the loop: so many entries from an id on. The table may grow meanwhile.
  unfoldable pub finish_from : ℕ → ℕ → ObjectFactory → Option ObjectFactory
  finish_from zero i f = some f
  finish_from (suc n) i f = elim (get_elem? f.objects_table i) [
    | none ↦ none
    | some none ↦ finish_from n (i + 1) f
    | some (some a) ↦ after_world_creation i f >>= finish_from n (i + 1)
  ]

  -- FinishWorldCreation
  unfoldable pub finish_world_creation : ObjectFactory → Option ObjectFactory
  finish_world_creation f =
      finish_from (length f.objects_table - 1) 1 (record f { is_world_generating = false })

-- BeginWorldCreation
abbrev pub begin_world_creation : ObjectFactory → ObjectFactory
begin_world_creation f = record f { is_world_generating = true }

-- DeleteLater
unfoldable pub delete_later : ℕ → ObjectFactory → Option ObjectFactory
delete_later id f = elim (get_elem? f.objects_table id) [
  | none ↦ none
  | some entry ↦ some (record f {
    ids_to_delete = f.ids_to_delete ++ (entry ∷ []);
    objects_table = set f.objects_table id none;
  })
]

-- delete of a pointer
unfoldable pub delete : Option ℕ → List Object → Option (List Object)
delete none heap = some heap
delete (some a) heap = elim (get_elem? heap a) [
  | none ↦ none
  | some object ↦
      if object.is_alive then some (set heap a (record object { is_alive = false })) else none
]

unfoldable pub delete_all : List (Option ℕ) → List Object → Option (List Object)
delete_all [] heap = some heap
delete_all (a ∷ addresses) heap = delete a heap >>= delete_all addresses

-- ProcessDeletion
unfoldable pub process_deletion : ObjectFactory → Option ObjectFactory
process_deletion f = do
  heap ← delete_all f.ids_to_delete f.heap
  some (record f { ids_to_delete = []; heap = heap })

-- Clear; the entries of the table stay as they are.
pub clear : ObjectFactory → Option ObjectFactory
unfolding delete_all
clear f = elim f.objects_table [
  | [] ↦ some (record f { ids_to_delete = []; next_id = 1 })
  | first ∷ entries ↦ delete_all entries f.heap >>= λ heap.
      some (record f { heap = heap; ids_to_delete = []; next_id = 1 })
]
