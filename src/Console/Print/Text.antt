-- ===== src/Console/Print/Text.antt =====
-- What `vcprintf` puts into the buffer before it flushes it.
use ose.Prelude.{ℕ, zero, suc, ◌+◌, ◌-◌, ◌≡◌, List, [], ◌∷◌, Mem, length, u8}
use ose.Console.Printf.Vsnprintf.Contract.{stored}
use ose.Console.Flush.{Console}
use ose.Console.Print.{buffer_at}

-- The characters in a room of `size` bytes: all of them if there is room for a terminator, which is
-- not counted; otherwise as many as there is room for, with a 0 byte in place of the last one.
unfoldable pub fitted : (size : ℕ) → List ℕ → List ℕ
fitted zero cs = []
fitted (suc size) [] = []
fitted (suc zero) (ch ∷ cs) = 0 ∷ []
fitted (suc (suc size)) (ch ∷ cs) = u8 ch ∷ fitted (suc size) cs

-- Memory after the output, below and from the old end of the buffer on.
module _ (base : ℕ) (c : Console) (cs : List ℕ) (m : Mem)
    (h : (x : ℕ)
      → m x
        ≡ stored
            (buffer_at base c)
            (base + length c.buffer)
            (c.buffer_size - length c.buffer)
            cs
            x) where
  abbrev room : ℕ
  room = c.buffer_size - length c.buffer
