-- ===== src/Lib.antt =====
-- Griefly: a multiplayer space station game in C++. Its core is a simulation that every client runs in
-- step with the others, so that the same messages must lead to the same world. The program's parts are
-- the world's objects (sources/core/objects), the atmosphere (sources/core/atmos), the geometry and the
-- serializer that all of them use (sources/core/KvGlobals.h, sources/core/FastSerializer.h), and the
-- client that shows the world (sources/client). In a tick the objects get their `Process`, the grid of
-- air cells gets its pass, and the macro parameters of each cell are brought up to date; a world is saved
-- and loaded through the serializer.
--
-- Prelude: names of the libraries passed on, Boolean tests, lists and signed integers (Prelude/Tests,
--   Prelude/Lists, Prelude/Int).
-- Geometry: sources/core_headers/Dir.h and the vectors of sources/core/KvGlobals.h: Dir, Vector,
--   DirToVDir, VDirToDir, ProjectionToDir, RevertDir.
-- Atmos/Gas: sources/core/atmos/AtmosConstants.h: AtmosData, ProccesBurning, UpdateMacroParams.
-- Atmos/Holder: sources/core/atmos/AtmosHolder.cpp: Connect, AddGase, AddEnergy, RemoveGase, SetVolume,
--   Truncate, Ignite.
-- Atmos/Cell: the cell of sources/core/atmos/AtmosGrid.h, ProcessFiveCells and the step of Finalize.
-- Atmos/Grid: AtmosGrid: At, Get, GetNearInGroup, BelongsToStage, ProcessGroups, ProcessGroupsBorders,
--   Finalize, Process. The array is a list; an access out of it is `none`.
-- Door, GlassDoor: sources/core/objects/Door.cpp, each a record and a `step` for the handlers.
-- Tile: sources/core/objects/Tile.cpp: AddObject, RemoveObject, SetTurf, UpdatePassable,
--   UpdateAtmosPassable, MoveToDir, with the passability of sources/core/objects/MaterialObject.h. It sets
--   the flags that Atmos/Grid reads.
-- Pipes: sources/core/objects/movable/Pipes.cpp: ProcessHelper and Process of each class, over Connect of
--   Atmos/Holder. Pointers to mixtures are places in a list, so that two may lead to one.
-- Sight: sources/core/LosCalculator.cpp: RayTrace, BresenX, BresenY, Calculate. The loop of a ray has fuel
--   for one round more than its steps, which Sight/Trace shows to be enough.
-- Projectile: sources/core/objects/movable/Projectiles.cpp: MakeMovementPattern, MakeMovementLoops,
--   ProcessMovement.
-- Physics: sources/core/objects/PhysicsEngine.cpp and the forces of
--   sources/core/objects/movable/Movable.cpp.
-- Objects: sources/core/ObjectFactory.cpp, with the lookup of sources/core/Idptr.h: CreateImpl, CreateVoid,
--   DeleteLater, ProcessDeletion, Clear, FinishWorldCreation. Addresses are places in a heap.
-- Processor: sources/core/objects/ObjectProcessor.cpp: Add, RunProcess. It runs the objects of Objects.
-- Random: sources/core/SynchronizedRandom.cpp, over the standard library's generator as an argument.
-- Chat: sources/core/ChatFrameInfo.cpp. The points that a player sees are those of Sight.
-- Human: sources/core/objects/mobs/Human.cpp: the body, Live, AttackBy, Bump, SetLaying, with Medicine::Heal of
--   sources/core/objects/movable/items/MedbayTools.cpp. It breathes the mixtures of Atmos and draws the
--   numbers of Random.
-- HumanInterface: sources/core/objects/mobs/HumanInterface.cpp and Slot.h beside it: the indicators, the slots
--   and HandleClick; Masks is the tie that Human::InterfaceChanges and HandGasTank::AttackBy keep.
-- World: sources/core/CoreImplementation.cpp: SetPlayerId, GetPlayerId, GetNetId, ProcessHearers, PostOoc,
--   AppendChatMessages, with MoveMindTo of sources/core/objects/mobs/Mob.cpp. Its hearers read the frame of
--   Chat.
-- Closet: sources/core/objects/movable/Closet.cpp: Closet and SecurityLocker.
-- GasTank: sources/core/objects/movable/GasTank.cpp, whose Process exchanges with the tile by Connect of Atmos.
-- Tables: sources/core/objects/movable/Tables.cpp: UpdateSprite.
-- Types: sources/core/FastIsType.cpp: IsBase and InitTable on the classes of metadata.json. IsBase has fuel
--   for one call more than there are classes, which Types/Bases shows to be enough where no class is its own base.
-- Serializer: sources/core/FastSerializer.h: Write, Read, EnsureSize, EnsureType, Humanize. A stream is
--   a list of bytes, kv::Abort an error; how Qt prints numbers and bytes is an argument of Humanize.
-- Network: SocketHandler of sources/client/net/Network2.cpp: handleNewData, HandleHeader, HandleBody,
--   sendMessage. The conversion of JSON is an argument.
-- Examples: the theorems at concrete inputs.
--
-- A C++ int is an integer, but where the code relies on a width (the serializer's numbers, and the
-- volume, a qint16) it is written out. The loop of Humanize runs on fuel, one round for each value and
-- one for the end; the loop of handleNewData has fuel for at least two rounds for each byte of its buffer
-- and two more, and Network/Feeding shows that it does not use it up unless it comes to a body of a negative
-- size, over which Network/Endless shows that it can go on for ever. All other loops are over a list or a known number
-- of rounds.
--
-- Not modelled: sprites, sounds and names; hashing, save and load of each class; Qt, login and the
-- errors of the socket; the client's representation; other game content (other mobs, items, structures), and of a human its
-- movement, its messages and its pulling; the tests;
-- CanTouch, Bump and ApplyFire of a tile, and TryMove of a movable, which call virtual functions of other
-- objects; how pipes find their neighbours; Map; the overflow of an int, but in the serializer and in ids.
pub mod Prelude
pub mod Geometry
pub mod Atmos
pub mod Door
pub mod GlassDoor
pub mod Tile
pub mod Pipes
pub mod Sight
pub mod Projectile
pub mod Physics
pub mod Objects
pub mod Processor
pub mod Random
pub mod Chat
pub mod Types
pub mod Serializer
pub mod Network
pub mod Closet
pub mod GasTank
pub mod Human
pub mod HumanInterface
pub mod Tables
pub mod World
pub mod Examples
