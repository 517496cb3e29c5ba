-- ===== src/RunBuffer/Cluster/Agreeing.antt =====
-- Two nodes that share a buffer of vrjugglua/LuaRunBuffer.cpp, over many frames.
use vr_jugglua.Prelude.{List}
use vr_jugglua.CircularBuffer.{CircularBuffer}
use vr_jugglua.ObjectStream.{ObjectStream}
use vr_jugglua.RunBuffer.{RunBuffer}
