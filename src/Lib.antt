-- ===== src/Lib.antt =====
-- sn0int: a model of the core of sn0int, a framework for OSINT whose modules find domains,
-- addresses, accounts and more, and store them in a database with a flag that says what is out of
-- scope.
--
-- The parts and their files:
--
-- - sn0int-common/src/id.rs, the names of modules (ModuleID): Common/Id.antt, and its laws in
--   Common/Id/Laws.antt. `Display` is `to_string`, `FromStr` is `from_str`, `module` is
--   `parse_module`.
-- - sn0int-common/src/metadata.rs, the header of a module's code: Common/Metadata.antt holds the
--   types, their `FromStr` and `NewMetadata::try_from`; Common/Metadata/Header.antt holds the
--   parser of the lines and `Metadata::from_str`. Lines, Sources and RoundTrip have the proofs.
-- - src/autonoscope: the rules that put an entity out of scope. Domain.antt, Ip.antt and Url.antt
--   model domain.rs, ip.rs and url.rs (the implementations of `AutoRule` are `matches_*`);
--   Autonoscope/Rule.antt models `RuleType`, `Rule` and the order of rules;
--   Autonoscope/RuleSet.antt models `RuleSet` with `load`, `matches` and `rules`;
--   RuleSet/Store.antt models `add_rule` and `delete_rule`, which change the set in memory and the
--   table in the database: they take a state (`Scope`) and return a result and the state that they
--   leave, on an error too.
-- - src/repl/tokenize.rs, the token under the cursor: Repl/Tokenize.antt, one `step` per
--   character.
-- - src/db/mod.rs, `Filter`, the WHERE clause of a command: Db/Filter.antt.
-- - sn0int-std/src/ratelimits.rs, the limits on how often a module acts: Ratelimits.antt.
--   `Utc::now` is an argument for each reading, instants are nanoseconds, and a panic is `none`.
-- - src/keyring.rs, the keys of services and the grants of modules: Keyring.antt. `save` is an
--   argument; an operation returns its result and the keyring that it leaves.
-- - src/models: Models.antt has the structs that are inserted; Models/Fields.antt the functions of
--   models/mod.rs that find the columns of an update; Models/Entity.antt the traits that an
--   insertion uses, as one record; Models/Links.antt the same for the tables that link two
--   entities. Models/Domain.antt, Subdomain, IpAddr, Url, Email, PhoneNumber, Device, Network,
--   Account, Breach, Image, Port, Netblock and CryptoAddr are the tables of entities,
--   SubdomainIpAddr, NetworkDevice and BreachEmail the tables of links, and Activity the log, with
--   the name of their file in src/models. A number is that of its bits there, since only equality
--   is asked of it, and a date is its distance from the first date.
-- - src/db/mod.rs, `Database`: Db/Insert.antt has `insert_struct`, over any entity; Db/Links.antt
--   the insertions of links, Db/BreachEmail.antt that of an email address into a breach, and
--   Db/Activity.antt that of activity. Db/Kinds.antt lists the entities, and Db/Generic.antt puts
--   all of it together: `insert_generic`, `update_generic` and `get_opt`, over a record of all
--   tables. Db/Names.antt has `Family` and `Table`.
-- - the traits `Model` and `Scopable` of src/models: Models/Ops.antt has their operations, once for
--   all tables of entities, since the files in src/models have them alike; Models/Ops/Tables.antt
--   has what each table adds. A condition in SQL is a parameter: it says which rows it selects.
-- - src/filters.rs and the commands delete, scope and noscope of src/cmd: Cmd.antt.
--   Cmd/Run.antt is the part of src/cmd/run_cmd.rs that prepares what a module is run with; the
--   question to the user and the blobs are parameters, and a value is not yet JSON.
-- - src/db/ttl.rs, the expiry of entities: Db/Ttl.antt. What diesel does with the table `ttls` and
--   with a row that is deleted by its id is a record of operations with laws (`TtlDb`,
--   `TtlDbLaws`). A notification runs modules, which may write to the database: it is an operation
--   of that record without a law, so a theorem on the expiry holds whatever a notification does.
-- - src/cal, the calendar of activity: Cal.antt has the arguments and the grades of mod.rs,
--   Cal/Graph.antt the loop that counts events, Cal/Date.antt the ranges of date.rs with
--   Cal/Date/Page.antt, the page of a month, and Cal/Date/Merge.antt, the pages side by side;
--   Cal/Time.antt is time.rs. Cal/Command.antt is src/cmd/cal_cmd.rs, which asks the log for the
--   events of a range and prints them. A panic is `none`. Cal/Date/Screen.antt is a terminal, as
--   far as the columns of a text go; it is there for the theorems.
--
-- The crates that the code calls are records of operations with laws, under Crates: Network (url,
-- ipnetwork and the parsers of std::net), Sqlite (diesel, for the table `autonoscope`), Table
-- and LinkTable (diesel, for the table of an entity and of a link), Chrono (dates, instants and
-- how they are formatted) and Nom (the parsers of nom 5). The children of those
-- modules are small instances that satisfy the laws; the examples in the Tests modules use them.
-- `str::to_lowercase` is an argument of the filter.
--
-- A `HashMap` with strings for keys is the list of its entries (Maps.antt), in one of the orders
-- that it may have. Text is the list of its code points. `find` and slices count code points where
-- Rust counts bytes, which is the same here since every cut is at an ASCII character that has been
-- found. Loops are by recursion on the list that they read, or on the number of their rounds, so no
-- fuel is needed; the one parser that repeats is `nom`'s `fold_many0`. The one loop with a condition
-- is that over the days of the view by slices: its bound is the number of days from the first to the
-- last one, and that is enough since each round goes on by a day. Error values keep the message and what it formats. `usize`
-- and `u8` carry only lengths and prefix lengths here, which no operation adds to. A date is the
-- number of its day, an instant that of its nanosecond; a year is an integer whose arithmetic wraps
-- around at 32 bits, as in a release build, and so does the product that is the width of an hour.
-- Counters of events are numbers: they count the rows of a list. Floating-point columns are values
-- that are only compared, which leaves out NaN.
--
-- Not modelled: the sandboxed Lua runtime and its standard library, the worker and its terminal
-- output, the command line and its shell but for the commands above, network access, the registry's
-- web service, notifications, and of the database the checks of user input before an insertion, what a deletion
-- of a row takes with it in the tables that refer to it (ON DELETE CASCADE), and how rows are
-- printed.
pub mod Autonoscope
pub mod Cal
pub mod Cmd
pub mod Common
pub mod Crates
pub mod Db
pub mod Keyring
pub mod Maps
pub mod Models
pub mod Prelude
pub mod Ratelimits
pub mod Repl
