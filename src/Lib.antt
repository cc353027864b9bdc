-- ===== src/Lib.antt =====
-- JContainers NG: containers of values for Papyrus scripts, kept by a system of reference-counted
-- objects. Paths below are from the root of the repository, under src/JContainers/src/.
--
-- The parts and their files:
--   IdGenerator   object/id_generator.h. The deque `_empty_ranges` is a list, `_current_range` an
--                 offset into it, and `id` a 32-bit word: `end()` and `begin() - 1` wrap.
--   Objects       object/object_base.h, object/object_base.hpp, object/object_registry.h,
--                 object/autorelease_queue.h. `Context` is the state: a heap from addresses to
--                 objects, the registry's set and map, the queue and its clock. A call through an
--                 address that is not in the heap is `fault`. `delete_self`, `release`, `tes_release`,
--                 `stack_release`, `aqueue_release`, `tick`, `uid` and `get_object` are the source's
--                 functions of those names.
--   Objects.Collector   object/garbage_collector.h, `u_collect`.
--   Index         collections/functions.h, `array_functions`: from a script's index to an offset.
--   Array         api_3/tes_array.h (JArray) and `array` of collections/collections_types.h.
--   Maps          api_3/tes_map.h (JMap, JFormMap, JIntMap), `map_functions_templ` of
--                 collections/functions.h and `basic_map_collection` of
--                 collections/collections_types.h.
--   Item          collections/item.h, collections/operators.h, and api_3/tes_atomic.h (JAtomic).
--   Forms         forms/form_handling.h: form handles and the parts of a form identifier.
--   Forms.Strings   form strings of forms/form_handling.h.
--   Forms.Observer   forms/form_observer.h and forms/form_observer.hpp: the entries that form
--                 references share and the observer that marks those of deleted forms. Items hold
--                 the identifier and the mark of an entry, as they are when the item is read.
--   Paths         collections/access.h and collections/access.cpp, namespace `ca`. A `Store` gives
--                 each address its container. Paths.Parse is `parse_path`, Paths.Access the two
--                 accessors, `retrieve`, `get`, `visit_value` and `assign`. Paths.Resolve is
--                 `path_resolving::resolve`: `round` is a round of its loop, with the three rules.
--   Copying       collections/copying.h, on the same store. `rounds` is the loop of `_deep_copy`,
--                 `copied` the map `_copyed`.
--   Values        api_3/tes_object.h (JValue): the functions on containers, paths and pools,
--                 over the store. Values.Entries is api_3/tes_form_db.h (JFormDB), with
--                 `half_split_if` of boost_extras.h and `setObj` of api_3/tes_db.h (JDB).
--   Json          collections/json_serialization.h, on the same store. Json.Reading is
--                 `json_deserializer` and Json.References its `resolve_references`; Json.Writing is
--                 `json_serializer` and Json.Keys its `path_to_object`. A `Document` gives the nodes of
--                 `json_t` values their contents; `rounds` are the loops over `_toFill`.
--   Wrapping      api_3/string_wrapper.cpp: `wrap_text` is `wrap_string` on a decoded text, `Lines` is
--                 `line_set`, a `wstring_range` is the list of its code points.
--   Common        names, lists and integers that the others share.
--
-- How they interact: arrays and maps hold items; an item may hold an object, which counts as a
-- reference to it. Index conversions guard every access to an array. The object system counts
-- references, hands objects without an owner to the queue, which releases them a few ticks later,
-- and gives a public object an identifier from the generator, which takes it back on deletion. The
-- collector empties or deletes what neither a script nor the queue can reach. A path leads from
-- container to container through the items that hold objects; its keys are texts, indices and form
-- strings, and its operators fold items. JValue reads and writes at the end of a path.
--
-- Conventions and bounds: integers are native numbers with the wrap of the source's words written
-- out; a size is cast to `SInt32` where an index is converted, and is below 2 ^ 31 elsewhere.
-- `Exec` has `fault` for an access outside a container, through a freed object, through a null
-- pointer or past the end of a path. Reference counts are numbers, and do not overflow. A container
-- of the object system is the list of the objects that its items refer to, once for each reference.
-- Each address of a `Store` has a container with its items; those from `next_address` on are free.
-- A path is read up to its zero byte or 1024 bytes; what follows the limit is kept as `tail`,
-- because a form string in brackets is read up to the zero byte. A range that starts past the
-- path's end is `none`. The deep copy reads the items of a copy before it replaces any of them; a
-- copy is never among the originals.
--
-- Fuel: the loop of the collector has one more than the number of objects, since each round after
-- the first takes an object from the set of those not reached. The search along a path and `resolve`
-- have the length of the path, since each key and each rule takes a part of it, and an operator's
-- calls are on what is left. The loop of the deep copy has the number of addresses in use, since each
-- round but the first copies an object that had no copy. So do the rounds of the JSON serializer, each
-- of which writes objects that had no node, and `path_to_object` has the number of entries of
-- `_keyInfo`. The rounds of the deserializer have the number of nodes: the nodes of a round are
-- children of those of the one before. The loop of `initialSet` has the length of the text, which is
-- enough when each of its rounds gets further.
--
-- Parameters: the floats (`Reals`), jansson (`Jansson`), the conversions between `double` and the
-- floats, whether `assert` evaluates its argument, the `float` of the string wrapper (`Floats`)
-- with UTF-8 and `boost::split`, what the game knows of its mods (`Mods`: skse/jc_skse.h; that it
-- finds a loaded mod by its file name, as GetFormFromFile documents, is the hypothesis `IsGame`),
-- the comparer of a map's keys, `std::sort`, whether the game lets a form's handle be retained, and
-- the conversion to a script's values.
--
-- Not modelled: locks and the order of calls of several threads (calls run one at a time), the
-- timer thread, archives, the tags of JValue, the creation of missing keys by `resolve` (no
-- caller asks for it), the text of JSON documents, Lua, domains, and the registration of functions with the game.
pub mod Common
pub mod IdGenerator
pub mod Index
pub mod Array
pub mod Forms
pub mod Item
pub mod Maps
pub mod Paths
pub mod Copying
pub mod Values
pub mod Json
pub mod Wrapping
pub mod Objects
