-- ===== src/Ftp/Net.antt =====
-- What src/FTPClient.cpp takes from its base class TCPClient, and `printf` of Print.
use fembed_lwip.Common.{ℕ, ℤ, List}
use fembed_lwip.Wire.Source.{Got}

-- Over the world `W` behind the connection.
pub record Net (W : Type 0) : Type 0 where
  -- `read(cput, cleft)`: the bytes that it stored.
  pub read : ℕ → W → Got × W
  pub write : List ℕ → W → ℕ × W
  -- The text that the format and its arguments make.
  pub printf : List ℕ → W → W
  -- `connect(host, port)`
  pub connect : List ℕ → ℕ → W → ℤ × W
  pub stop : W → W
