-- ===== src/Server/Stream.antt =====
-- A result sent in chunks: `StreamResult`, `Write` and `Close` of server/jobcontext.go, and
-- `CollectChunks` with `assembleChunks` of client/handle.go, on the chunks in the order in which the
-- client receives them. base64 and the conversion of bytes to text and back are parameters.
pub mod Collect
use Prim.Native.String.{String}
use go_sdk.Prelude.{
  ℕ, zero, suc, ◌+◌, ◌-◌, Bool, true, false, not, ◌&&◌, ◌||◌, List, [], ◌∷◌, ◌++◌, Option, none,
  some, Text, text_beq, text_eq, codes, ltb, leb, nat_beq, nat_eq, if◌then◌else◌, Dict, lookup,
  insert, length, take, drop,
}
use go_sdk.Errors.{Error, fail, newf, invalid_request, internal_error, says}

pub data Encoding : Type 0 where
  utf8 base64 : Encoding

-- The text of a chunk from bytes, and the bytes of a received text.
pub record Codec : Type 0 where
  pub encode : Encoding → List ℕ → Text
  pub decode : Encoding → Text → Option (List ℕ)

pub record Chunk : Type 0 where
  pub result_id : Text
  pub chunk_seq : ℕ
  pub data_text : Text
  pub encoding : Encoding
  pub more : Bool

-- `chunks` are the events emitted; a `max` of 0 is no cap.
pub record Stream : Type 0 where
  pub result_id : Text
  pub encoding : Encoding
  pub seq : ℕ
  pub size : ℕ
  pub max : ℕ
  pub chunk_size : ℕ
  pub closed : Bool
  pub chunks : List Chunk

pub data Opened : Type 0 where
  opened : Stream → Opened
  rejected : Error → Opened

parse_encoding : Text → Option Encoding
parse_encoding name =
    if text_beq name [] || text_beq name (codes "utf8")
    then some utf8
    else if text_beq name (codes "base64")
    then some base64
    else none

open_as : Bool → Text → ℕ → ℕ → Option Encoding → Opened
open_as streamed id max chunk_size none =
    rejected (fail invalid_request (says "encoding must be utf8 or base64"))
open_as streamed id max chunk_size (some encoding) =
    if streamed
    then rejected (fail invalid_request (says "StreamResult called twice on the same job"))
    else if nat_beq chunk_size 0
    then rejected (fail internal_error (says "server ChunkSize must be > 0"))
    else opened (record {
      result_id = id;
      encoding = encoding;
      seq = 0;
      size = 0;
      max = max;
      chunk_size = chunk_size;
      closed = false;
      chunks = [];
    })

-- Whether the job has a stream already, the fresh id, and the options' sizes.
unfoldable pub stream_result : Bool → Text → ℕ → ℕ → Text → Opened
unfolding open_as parse_encoding
stream_result streamed id max chunk_size name =
    open_as streamed id max chunk_size (parse_encoding name)

module _ ⦃C : Codec⦄ where
  abbrev chunk_of : Stream → List ℕ → Bool → Chunk
  chunk_of r segment more = record {
    result_id = r.result_id;
    chunk_seq = r.seq;
    data_text = C.encode r.encoding segment;
    encoding = r.encoding;
    more = more;
  }

  -- One turn of the loop of `Write`, on the segment that it cuts.
  unfoldable pub write_segment : Stream → List ℕ → Stream
  write_segment r segment = record r {
    chunks = r.chunks ++ chunk_of r segment true ∷ [];
    seq = suc r.seq;
    size = r.size + length segment;
  }

  -- The loop, on what is left of p; a turn takes at least one byte, and `fuel` bounds the turns.
  unfoldable pub write_loop : ℕ → ℕ → Stream → List ℕ → Stream
  write_loop fuel limit r [] = r
  write_loop zero limit r (c ∷ p) = r
  write_loop (suc fuel) limit r (c ∷ p) =
      write_loop fuel limit (write_segment r (take limit (c ∷ p))) (drop limit (c ∷ p))

  unfoldable pub write : Stream → List ℕ → Stream × Option Error
  write r p =
      if r.closed
      then (r, some (fail invalid_request (says "write to closed result stream")))
      else if ltb 0 r.max && ltb r.max (r.size + length p)
      then (r, some (fail internal_error (says "streamed result exceeds its limit")))
      else (
        write_loop (length p) (if nat_beq r.chunk_size 0 then length p else r.chunk_size) r p,
        none,
      )

  -- The last chunk's text is the empty string in both encodings.
  unfoldable pub close : Stream → Stream
  close r = if r.closed then r else record r {
    closed = true;
    chunks = r.chunks ++ record (chunk_of r [] false) { data_text = [] } ∷ [];
  }

-- `chunkAccum`
pub record Accum : Type 0 where
  pub encoding : Encoding
  pub chunks : Dict ℕ Text

pub record Collecting : Type 0 where
  pub by : Dict Text Accum
  pub total : ℕ

pub data Collected (A : Type 0) : Type 0 where
  ok : A → Collected A
  failed : Error → Collected A
  undecodable : ℕ → Collected A

same_encoding : Encoding → Encoding → Bool
same_encoding utf8 utf8 = true
same_encoding base64 base64 = true
same_encoding utf8 base64 = false
same_encoding base64 utf8 = false

store_chunk : Collecting → ℕ → Chunk → Option Accum → Collected Collecting
unfolding same_encoding
store_chunk c total ch none = ok (record {
  by =
      insert ch.result_id
        (record { encoding = ch.encoding; chunks = insert ch.chunk_seq ch.data_text [] }) c.by;
  total = total;
})
store_chunk c total ch (some a) =
    if same_encoding a.encoding ch.encoding
    then ok (record {
      by =
          insert ch.result_id (record a { chunks = insert ch.chunk_seq ch.data_text a.chunks })
            c.by;
      total = total;
    })
    else failed (fail invalid_request (says "mixed encodings in result_chunk stream"))

-- `add`, with the client's MaxAssembledBytes; 0 is no limit.
unfoldable pub add : ℕ → Collecting → Chunk → Collected Collecting
unfolding store_chunk
add max c ch =
    let total : ℕ = c.total + length ch.data_text in
    if ltb 0 max && ltb max total
    then failed (fail invalid_request (says "assembled result exceeds MaxAssembledBytes"))
    else store_chunk c total ch (lookup ch.result_id c.by)

-- The loop over the numbers in ascending order stops at the first that is not its own index; the
-- map has a value for each of the indices 0 … n - 1 exactly if its n keys are these.
is_there : Option Text → Bool
is_there none = false
is_there (some text) = true

gap_free : ℕ → ℕ → Dict ℕ Text → Bool
unfolding is_there
gap_free i zero chunks = true
gap_free i (suc n) chunks = is_there (lookup i chunks) && gap_free (suc i) n chunks

-- The parameter is the client's codec.
module _ ⦃C : Codec⦄ where
  joined : ℕ → Option (List ℕ) → Collected (List ℕ) → Collected (List ℕ)
  joined i none rest = undecodable i
  joined i (some part) (ok more) = ok (part ++ more)
  joined i (some part) (failed e) = failed e
  joined i (some part) (undecodable k) = undecodable k

  decode_text : Encoding → Option Text → Option (List ℕ)
  decode_text encoding none = some []
  decode_text encoding (some text) = C.decode encoding text

  -- The second loop, from the chunk numbered i on.
  decode_from : Encoding → Dict ℕ Text → ℕ → ℕ → Collected (List ℕ)
  unfolding joined decode_text
  decode_from encoding chunks i zero = ok []
  decode_from encoding chunks i (suc n) =
      joined i (decode_text encoding (lookup i chunks)) (decode_from encoding chunks (suc i) n)

  unfoldable pub assemble_chunks : Dict Text Accum → Collected (List ℕ)
  unfolding decode_from gap_free is_there
  assemble_chunks [] = ok []
  assemble_chunks ((id, a) ∷ []) =
      let n : ℕ = length a.chunks in
      if gap_free 0 n a.chunks
      then decode_from a.encoding a.chunks 0 n
      else failed (fail invalid_request (says "result_chunk gap"))
  assemble_chunks (_ ∷ _ ∷ by) =
      failed (fail invalid_request (says "multiple result_ids in stream"))

  -- After a chunk that is added, the result or the rest of the chunks.
  after_add : Collected Collecting → Bool → (Collecting → Collected (List ℕ)) → Collected (List ℕ)
  after_add (ok c) more rest = if more then rest c else assemble_chunks c.by
  after_add (failed e) more rest = failed e
  after_add (undecodable k) more rest = undecodable k

  collect_loop : ℕ → List Chunk → Collecting → Collected (List ℕ)
  unfolding after_add
  collect_loop max [] c = assemble_chunks c.by
  collect_loop max (ch ∷ chunks) c = after_add (add max c ch) ch.more (collect_loop max chunks)

  -- The chunks up to the first that says that there are no more, or until the job is done.
  unfoldable pub collect_chunks : ℕ → List Chunk → Collected (List ℕ)
  unfolding collect_loop after_add
  collect_chunks max chunks = collect_loop max chunks (record { by = []; total = 0 })
