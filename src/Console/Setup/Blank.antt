-- ===== src/Console/Setup/Blank.antt =====
-- The console after `init_consoles`.
use ose.Memory.Immortal.{Immortal}
use ose.Console.Vga.{Vga}
use ose.Console.Flush.{Console}
