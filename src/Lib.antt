-- ===== src/Lib.antt =====
-- ichr: a launcher for Minecraft instances. This library models the parts of it that compute and
-- decide: what a version document means, where a library lies and what a class path holds, which mods
-- an installation needs, what the ledger of an instance says and how its directory is named.
--
-- The parts and how they interact
--   A game or loader version is a JSON document (Mojang.Types). `resolve_inherits` folds a loader's
--   document over the game's own (Mojang.Inherits); rules select libraries and arguments for a
--   platform (Mojang.Rules), native libraries and the key of a library are read off its entry
--   (Mojang.Natives), and the arguments of the resolved version are resolved in the same rule context
--   (Mojang.Args). The class path of a resolved version is built from its libraries
--   (Launcher.Classpath). A loader's libraries are Maven coordinates, which Loader.Maven turns into
--   paths and addresses. The mods of an instance are versions on Modrinth: Mods.DepResolve finds what
--   a mod needs, Mods.Installer turns the graph into a plan of downloads and rows, Mods.Filter picks
--   files and versions and tests file names, and Mods.Ledger keeps the rows beside the files on the
--   disk. A pack's manifest names a game version, a loader and files (Modpack.Parse). An instance has
--   a directory that is named after it (Instance.Slug). The interface (Tui) is a state and a function
--   `update` that turns an action into the next state and the effects to start; the loop of
--   src/tui/run.rs feeds it keys and the answers of the services.
--
-- The files
--   Base.antt             the shared names, texts, lists, maps and results
--   Disk.antt             the file system as a parameter, and atomic_write of src/mojang/cache.rs;
--                         proofs in Disk/Atomic
--   Domain/Platform.antt  src/domain/platform.rs
--   Error.antt            src/error.rs
--   Instance/Slug.antt    src/instance/slug.rs; proofs in Slug/Shape, Slug/Fixed and Slug/Unique
--   Java/Mapping.antt     src/java/mapping.rs; proofs in Java/Major
--   Java/Resolve.antt     resolve_jre_for_launch and resolve_override of src/java/service.rs, with
--                         select_variant of src/java/mojang_jre.rs; proofs in Java/Sources and Java/Offline
--   Launcher/Classpath.antt  src/launcher/classpath.rs, with paths of src/persistence/paths.rs; proofs
--                         in Classpath/Entries
--   Loader/Maven.antt     src/loader/maven.rs; proofs in Maven/Coords and Maven/Paths
--   Modpack/Parse.antt    src/modpack/parse.rs; proofs in Parse/Loaders
--   Mods/Types.antt       src/mods/types.rs
--   Mods/Filter.antt      src/mods/filter.rs; proofs in Filter/Latest, Filter/Names and Filter/Cleaned
--   Mods/DepResolve.antt  src/mods/dep_resolve.rs; the loops' invariant in DepResolve/Entries,
--                         Invariant and Closure, the result in Totals and Graph, the end of the loop in Fuel
--   Mods/Installer.antt   build_install_plan of src/mods/installer.rs; proofs in Installer/Plan
--   Mods/Ledger.antt      src/mods/ledger.rs; the rows in Ledger/Rows, the file in Ledger/Stored, each
--                         operation in Ledger/Operations, Toggle and Uninstall, sequences of them in
--                         Ledger/Invariant
--   Mojang/Types.antt     src/mojang/types.rs
--   Mojang/Rules.antt     src/mojang/rules.rs; proofs in Rules/Matching
--   Mojang/Natives.antt   src/mojang/natives.rs; proofs in Natives/Keys
--   Mojang/Args.antt      src/mojang/args.rs; proofs in Args/Tokens and Args/Inherited
--   Mojang/Inherits.antt  src/mojang/inherits.rs; proofs in Inherits/Chain, Complete and Libraries
--   Packs.antt            src/packs/kind.rs
--   Domain/Instance.antt, Domain/Account.antt, Mods/Hits.antt
--                         the records of src/domain, src/loader/types.rs, src/java, src/mods and
--                         src/icons that the interface holds
--   Tui/View.antt, Tui/State.antt, Tui/Action.antt, Tui/PackAction.antt, Tui/Effect.antt
--                         the views, the state, the actions and the effects of src/tui/app.rs
--   Tui/Update/           `update` of src/tui/app.rs: each arm is a function named after its action, in
--                         a file for its part of the interface; Dispatch, ModDispatch and Step send an
--                         action to its arm
--   Tui/Keys.antt         src/config/keybinds.rs, the names of actions in Keys/Names; below it, `map_event` of src/tui/run.rs with the keys of each
--                         view of src/tui/views
--   Tui/Runs.antt         induction over the actions of the loop; proofs about `update` in Tui/Bounds,
--                         Guards, Busy, Switch, Scroll, Marks, ActiveAccount and Quit, about keys in
--                         Tui/Escape, KeyGuards and KeyNames
--   The files named Tests, and those below Mods/Tests, run the definitions on small inputs.
--   Functions keep their names. A definition that is a piece of a function says which in its comment.
--
-- Representation
--   A text is the list of its code points, so an ASCII test on bytes is the same test on code points.
--   A map is an association list that is read by its first entry for a key, and a set of strings is a
--   list. A u64 keeps its wrap-around (`u64_mod`). Results are values of `Result`; an operation on the
--   disk is a function from the disk's state to a result and the next state. On the disk a path is the
--   components of its directory and its last one; on a class path it is its text.
--   In the interface a struct variant of a view is a record, the one enum of actions is a sum of its
--   sections, and an arm that writes only the view is a function of the view. A cancellation token is
--   the identity of a flag, and the state lists the flags that are set. A signed step is an integer
--   without bounds: the sums of the source stay far from those of an isize. A percentage and an instant
--   are natural numbers, and a character is its code point.
--
-- Bounds and fuel
--   `resolve_inner` runs on fuel, three rounds as `resolve_inherits` calls it: its own depth test ends
--   it first. The queue of the dependency resolver runs on fuel, one round for each version taken from
--   it. The search for a free slug has as many rounds as its safety valve lets through, and the loop
--   over double underscores as many as its text is long.
--
-- Parameters
--   What a service answers is an argument: the three fetch closures of the resolver answer a request
--   always in the same way. The choice of a Java runtime takes the
--   answers of its two clients and of the file system as a record. The home directory is an argument of
--   `update`. The calls of the file system, the TOML and JSON libraries, Unicode's lower case and
--   whitespace and the clock are arguments, with what the code relies on as hypotheses: each call on a
--   file may fail, and one that succeeds has its documented effect. A
--   JSON value that a rule reads is an object of Booleans or something else.
--
-- Not modelled
--   HTTP, processes, zip files, drawing, login and logging, which are calls of other libraries; the
--   wire form of keys and what the loop does with an effect; the services that chain those calls, but
--   for the choice of a Java runtime, of which the installations and the path of an installer are left
--   out. The lock of an instance, which makes the
--   operations on its ledger a sequence. The asset index file, and serde's attributes.
pub mod Base
pub mod Disk
pub mod Domain
pub mod Error
pub mod Instance
pub mod Java
pub mod Launcher
pub mod Loader
pub mod Modpack
pub mod Mods
pub mod Mojang
pub mod Packs
pub mod Tui
