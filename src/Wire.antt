-- ===== src/Wire.antt =====
-- src-tauri/src/proxy.rs: reading the bytes of a client's handshake. What comes over the connection
-- is `incoming`, and then the connection is closed; `reads` are how many more bytes than one each
-- read may get at most, and after the last of them no read ends in time.
pub mod Step
pub mod Exact
pub mod Read
pub mod Compare
pub mod Address
pub mod Socks
pub mod Deliver
pub mod Dial
mod Examples
use proxy_load.Base.{
  get_elem?, unwrap_or, ℕ, suc, ◌+◌, ◌-◌, Bool, Option, none, some, List, [], ◌∷◌, ◌++◌,
  if◌then◌else◌, leb, length, is_empty, take, drop, min,
}
use proxy_load.Models.{Bytes}
use proxy_load.Wire.Step.{Reply, got, gone}

-- The bytes that were asked for, and what is then buffered, yet to come and yet to be read.
pub record Chunk : Type 0 where
  pub bytes : Bytes
  pub buffer : Bytes
  pub incoming : Bytes
  pub reads : List ℕ

pub drained : ℕ → Bytes → Bytes → List ℕ → Chunk
drained n buffer incoming reads = record {
  bytes = take n buffer;
  buffer = drop n buffer;
  incoming = incoming;
  reads = reads;
}

-- How much one read gets.
read_size : ℕ → ℕ → Bytes → ℕ
read_size r n buffer = min (suc r) (n - length buffer)

unfoldable pub read_exact_buffered : List ℕ → ℕ → Bytes → Bytes → Option Chunk
unfolding drained read_size
read_exact_buffered [] n buffer incoming =
    if leb n (length buffer) then some (drained n buffer incoming []) else none
read_exact_buffered (r ∷ reads) n buffer incoming =
    let more =
      read_exact_buffered reads n (buffer ++ take (read_size r n buffer) incoming)
        (drop (read_size r n buffer) incoming) in
    if leb n (length buffer)
    then some (drained n buffer incoming (r ∷ reads))
    else if is_empty incoming
    then none
    else more

-- The connection to a client: what is buffered, what it still sends, how much the reads get, and
-- what has been written to it. A write succeeds.
pub record Client : Type 0 where
  pub buffer : Bytes
  pub incoming : Bytes
  pub reads : List ℕ
  pub written : Bytes

with_chunk : Client → Option Chunk → Reply Client Bytes
with_chunk c none = gone c
with_chunk c (some k) =
    got k.bytes (record c { buffer = k.buffer; incoming = k.incoming; reads = k.reads })

-- `read_exact_buffered(client, …).await?`.
unfoldable pub read : ℕ → Client → Reply Client Bytes
unfolding with_chunk
read n c = with_chunk c (read_exact_buffered c.reads n c.buffer c.incoming)

-- `client.write_all(…).await?`.
unfoldable pub write : Bytes → Client → Reply Client (Unit {0})
write bytes c = got tt (record c { written = c.written ++ bytes })

-- What is buffered, and was not asked for.
abbrev pub buffered : Client → Reply Client Bytes
buffered c = got c.buffer c

-- A byte of what was read, which is as long as was asked for.
abbrev pub byte : Bytes → ℕ → ℕ
byte bytes i = unwrap_or (get_elem? bytes i) 0
