-- ===== src/Lib.antt =====
-- ModuleFlow: a framework of objects with signals and slots, data objects with a JSON form, commands
-- and loops. This library models its own code, under include/ and src/; what lies under 3rdparty/
-- is a parameter where the code calls it, and left alone elsewhere.
--
-- Parts and files. Prelude has shared names, tests and lemmas.
-- - Container/HashMap: container::HashMap of include/basic/base.h, a list of pairs in the order of
--   iteration (insert_one is operator[] =, from_multi_kv is fromMultiKV). Container/Map: Map, with its
--   pairs in the order of the keys. Container/Vector: what Vector and List add to a sequence.
--   Container/Stream: the operators <<.
-- - Object: include/basic/object.h and src/basic/object.cpp. Heap is the store: an Object* is an
--   address, a freed address is a fault to read, and a command is a function from the store to a
--   result, a fault, or the end of fuel. Connections is the map connections_ of one object, Signals
--   has connect, disconnect and emit, Manager has add, remove, get and fix, Destroy has the
--   destructors. A destructor may run others by its DELETE signal or as a manager; `destroy` has
--   fuel for the depth of these runs: where slots delete nothing, an object needs as many units
--   as the tree of what it owns has levels. Linked has the invariant of a store in which both sides of
--   a connection know of it, and the operations on such a store; its child Tree has these trees of
--   managers. Emission is about what emit calls. Returns says that a command comes to a result.
-- - Data: include/basic/data_manager_def.h and src/basic/data_manager_impl.cpp. Flags is
--   ControllableFlag; Json lists what is called of jsoncpp (JsonLibrary) and what it documents
--   (JsonLaws), and Samples is an instance of trees; Reference is JsonRefrence, whose `get` has
--   one unit of fuel more than the path has characters, of which an int has to hold the number;
--   Scalars and Convert are fromJson and toJson of single values and of lists, maps and arrays; Store
--   is data::get, with the same fuel, and Store/Quick has d_get, d_set and d_update; Create is
--   data::create, over the store of Object; Forms has the forms of fromJson and toJson that pass on;
--   TypedObject is TDataObject, Objects has the classes of data objects with a JSON form, Traits is
--   how templates choose one by type, and TypeNames has the names of these types.
-- - Command: include/basic/cmd_manager_def.h and src/basic/cmd_manager_impl.cpp. Result is
--   CommandResult, Pipeline is the list of procedures of CommandObject and command::copy, Register is
--   registerCommandObject, Data is getData and setData, Procedure is Procedure::from, whose overloads
--   are chosen by what FuncInfo says of a function type.
-- - Module: include/framework/module.h and src/framework/module.cpp, the states of a module and the
--   objects that it adopts, over the store of Object.
-- - Loop: include/basic/loop_manager_def.h and src/basic/loop_manager_impl.cpp, the manager of loops;
--   Loop/Evpp is EvppLoopObject of src/framework/evppevent_loop.cpp, over what it calls of evpp
--   (EvppLibrary) and what that documents (EvppLaws).
-- - ThreadPool: include/framework/threadpool_loop.h and src/framework/threadpool_loop.cpp. Workers,
--   the submitting thread and the destructor are one step relation: a step is one access to shared
--   state or one critical section. The constructor adds its workers in one step, since they find
--   nothing to do before it returns. A wait may
--   end spuriously. Jobs is the abstract queue that the pool refines; Progress is how a pool that
--   runs comes to execute what it was given.
-- Commands are objects, data objects are objects, and the global managers are object managers; the
-- models of Data and Command keep of this what their operations use.
--
-- Not modelled: type-level templates but those that choose a data class or an overload of
-- Procedure::from; exceptions of the tasks of a pool, and submissions to it by several threads or by
-- its own tasks; that std::unordered_map may change the order of its keys at an insertion, which here
-- stays.
pub mod Prelude
pub mod Container
pub mod Object
pub mod Data
pub mod Command
pub mod Module
pub mod Loop
pub mod ThreadPool
