-- ===== src/Lib.antt =====
-- A model of VR JuggLua, which runs Lua scripts as VR Juggler applications, with proofs about it.
--
-- The parts of the program, and the files here that model them:
--
-- - The stand-alone interpreter, src/lua.c. CommandLine has the option scanner `collectargs` and the
--   walk `runargs` over what it accepted; its child Grammar states which command lines there are.
--   Interpreter has the messages, the protected call `docall` and the chunk runners `dofile`, `dostring`
--   and `dolibrary`; Interpreter/Script has `getargs` and `handle_script`, Interpreter/Repl the interactive
--   mode (`pushline`, `incomplete`, `loadline`, `dotty`), and Interpreter/Startup the stages of `pmain` and
--   `main`. `set_exec_path` and `luaopen_vrjugglua` of vrjugglua/VRJLua_C_Interface.cpp are there too.
-- - ScriptHost: `LuaScript` of vrjugglua/LuaScript.cpp, a Lua state in which files, strings, modules and
--   functions are run. The function set by `setPrintFunction` is static in the program; here it is a
--   field of the script. Its child Construction has the constructors and `_applyBindings`, with `bindOsgToLua`
--   of vrjugglua/binding_detail/BindOsgToLua.inl and vrjugglua/LuaGCBlock.h.
-- - RunBuffer: `LuaRunBuffer` of vrjugglua/LuaRunBuffer.cpp, a bounded buffer of chunks that threads add to,
--   the application runs once a frame, and the nodes of a cluster share. It runs chunks in a ScriptHost. Its child
--   Cluster has two nodes over the frames of a run, with what is added before and after each synchronisation.
-- - SyncBuffer: `SynchronizedRunBuffer` of vrjugglua/SynchronizedRunBuffer.cpp, which queues chunks until
--   its run buffer is initialised, and then passes them on.
-- - Console: `LuaConsole` and `StubConsole` of vrjugglua/LuaConsole.cpp, which give chunks to such a buffer and
--   show what became of them. Its child Session puts the three together: chunks are entered and buffers
--   run in any order.
-- - QtConsole: the window of vrjugglua/qt-console/QTConsole.cpp, which extends Console. A window is a record,
--   a slot or method a function on it; its child Events has the events that its loop handles. CodeInput has
--   the editor's drag and drop, vrjugglua/qt-console/QTCodeInput.cpp, whose signals QtConsole receives.
-- - FltkConsole: the window of vrjugglua/fltk-console/FLTKConsole.cpp, which extends Console too.
-- - OsgApp: `OsgAppProxy` of vrjugglua/OsgAppProxy.cpp, the application that forwards the steps of a frame
--   to a Lua table.
-- - Kernel: `KernelState` of vrjugglua/binding_detail/BindKernelToLua.inl; its child VrjKernel has the module
--   vrjKernel that Lua programs call.
-- - Reconfiguration: vrjugglua/Reconfiguration.cpp.
-- - NavMain: the navigation program src/QTNavMain.cpp, with a parameter for what its console's loop returns;
--   its child Qt has the same program behind its console, run with the loop of QtConsole or of the stub:
--   AnyConsole is the interface of `LuaConsole` that it calls. The child Fltk has src/FLTKNavMain.cpp,
--   run with the loop of FltkConsole.
-- - OsgValues: the conversions of vrjugglua/osgLuaBind.h between OSG's values in C++ and in Lua.
-- - Gadgets: the buttons and axes of vrjugglua/Internal_DigitalInterface.cpp and
--   vrjugglua/Internal_AnalogInterface.cpp.
-- - SharedObjects: `findVPRDLL` of vrjugglua/FindVPRDLL.cpp, whose result Paths takes as a parameter.
-- - ErrorPosition: `add_file_and_line` of vrjugglua/VRJLua_C_Interface.cpp; its child Reading reads its
--   messages back.
-- - SearchPath: the search paths of vrjugglua/binding_detail/BindvrjLuaToLua.inl.
-- - Paths: `LuaPath` of vrjugglua/LuaPath.cpp, with the two of its functions that stand in
--   vrjugglua/LuaScript.cpp.
--
-- Definitions keep the names of the functions, in lower case with underscores. A C++ object is a record
-- of its fields, and a method is a function from the record to its result and the record behind
-- it. Exceptions are values (`Result`), as is a process that `std::exit` ends (`Ended`).
--
-- Other projects' code is a parameter. `Api` of Lua has the calls of Lua's C API, and `Laws` what the
-- reference manual says of them; CircularBuffer and ObjectStream do the same for Boost's circular buffer
-- and VPR's object streams. `Host` of OsgApp, `Machine` of Paths and `ConfigManager` of Reconfiguration
-- have no laws, or just those that a theorem names; so do `Qt` of CodeInput, `OsgLua` of OsgValues and
-- `Gadgeteer` of Gadgets. The stages of a script's construction are a function from the stage to what it
-- does. Each of them has a small instance, in a child
-- module Sample or among the tests.
--
-- Threads are explicit. `add_string` takes what the others do to the buffer during each wait, and
-- `run_buffer` what they add around each round, with what an attempt to take the lock gives; the theorems
-- hold for all of these. A frame of the application is what Lua does at each call of it.
-- The loop of a window takes the list of what happens to it, the user's actions, timers and what other
-- threads do alike; in Qt a signal that another thread emits waits in a queue for its delivery. A list
-- that ends before the window is closed gives `none`, as the loop still waits.
--
-- Loops are recursion on the list that they walk over or, where the source has no such bound, on fuel.
-- `load_lines` and `session` of the interactive mode take as much as there are lines of input, and one more:
-- each round reads a line. `attempt_all` takes one more than there are changes pending, and `erase_loop` the
-- number of items; `climb` makes the five rounds of the source. That this is enough is proved, and a
-- loop that ran out would show as `none` or `out_of_fuel`. `none` is also a failed assertion of
-- `runargs`, and an addition that waits for ever.
--
-- Numbers are native natural numbers. `argv` is a list, and a read behind its end is written out. The
-- counts of arguments, chunks and lines are the lengths of lists that fit into memory; the number of
-- chunks that a node writes is asked to be below 2 ^ 32 where it matters.
--
-- Not modelled: what the windows draw; the interface to VR Juggler's trackers, which only passes on
-- matrices; the other tables of names for luabind in vrjugglua/binding_detail and in `OsgAppProxy::bindToLua`,
-- and which C++ types vrjugglua/osgLuaBind.h takes for values or objects, which the compiler settles;
-- vrjugglua/constants/gl.h, a copy of OpenGL's header; messages to the log that only follow the program's
-- progress; the errors that `luaL_checkstack` in `getargs` and the construction of the script in
-- `luaopen_vrjugglua` can raise, which are taken not to occur; and all code of other projects in third-party and
-- extra.
pub mod Prelude
pub mod Lua
pub mod CommandLine
pub mod Interpreter
pub mod ScriptHost
pub mod CircularBuffer
pub mod ObjectStream
pub mod RunBuffer
pub mod SyncBuffer
pub mod OsgApp
pub mod Paths
pub mod Kernel
pub mod Reconfiguration
pub mod Console
pub mod SearchPath
pub mod CodeInput
pub mod QtConsole
pub mod FltkConsole
pub mod OsgValues
pub mod Gadgets
pub mod SharedObjects
pub mod NavMain
pub mod ErrorPosition
pub mod Tests
