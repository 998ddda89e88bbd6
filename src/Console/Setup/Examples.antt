-- ===== src/Console/Setup/Examples.antt =====
-- The theorem on `init_consoles` at the state in which the allocator starts.
use ose.Memory.Immortal.{Immortal}
use ose.Console.Flush.{Console}
