-- ===== src/Chunked/Tests.antt =====
-- The chunked coding at concrete bytes.
use web_frame.Prelude.{
  ◌≡◌, ◌≢◌, refl, true, false, List, [], ◌∷◌, ◌++◌, arith, length, drop, concat,
}
use web_frame.Prelude.Bytes.{codes}
use web_frame.Prelude.Text.{Text, crlf, trim_front, to_decimal}
use web_frame.Prelude.Socket.{Input, received, bytes_of}
use web_frame.Chunked.Codec.{size, encode_chunk, to_hex}
use web_frame.Chunked.Reader.{new_reader, read_all, no_fuel}
use web_frame.Chunked.Chunks.{IsTrailer}
use web_frame.Chunked.Ends.{read_all-ne-no_fuel}
use web_frame.Chunked.Lines.{Gives}
use web_frame.Chunked.Transfer.{respond, open_response, head, read_all-respond}
use web_frame.Chunked.Writer.{header_data}

encode_chunk_test :
    encode_chunk (codes "hello, chunked!!")
    ≡ codes "10" ++ (crlf ++ (codes "hello, chunked!!" ++ crlf))
unfolding encode_chunk to_hex
encode_chunk_test = refl

abbrev checksum : List (Text × Text)
checksum = (codes "Checksum", codes "7") ∷ []

checksum-IsTrailer : IsTrailer (codes "Checksum", codes "7")
unfolding trim_front
checksum-IsTrailer = record {
  name_plain = ground arith;
  value_plain = ground arith;
  value_trimmed = refl;
  short = ground arith;
}

abbrev pieces : List Text
pieces = codes "hello, " ∷ [] ∷ codes "world" ∷ []

-- What stands behind the head, in two reads.
abbrev reads : List Input
reads =
    received (codes "7" ++ (crlf ++ codes "hel"))
    ∷ received (
        codes "lo, "
        ++ (crlf
            ++ (codes "5"
                ++ (crlf
                    ++ (codes "world"
                        ++ (crlf
                            ++ (codes "0"
                                ++ (crlf
                                    ++ (codes "Checksum: 7"
                                        ++ (crlf ++ (crlf ++ codes "GET")))))))))))
    ∷ []

reads-respond :
    bytes_of reads
    ≡ drop
        (length (head 200 [] checksum))
        (respond pieces (open_response 200 [] checksum false [])).1.outgoing
      ++ codes "GET"
unfolding respond header_data web_frame.Chunked.Writer.write web_frame.Chunked.Writer.finish
    to_decimal encode_chunk to_hex web_frame.Chunked.Codec.encode_final_chunk
    web_frame.Chunked.Codec.trailer_lines
reads-respond = refl

read_all-respond_example :
    Gives (read_all 100 (new_reader reads)) (concat pieces) (codes "GET") checksum true
read_all-respond_example =
    read_all-respond 200 [] checksum pieces reads 100 (codes "GET") (ground arith) (ground arith)
      (checksum-IsTrailer, tt) tt reads-respond

read_all-ne-no_fuel_example : read_all 100 (new_reader (received (codes "5") ∷ [])) ≢ no_fuel
read_all-ne-no_fuel_example = read_all-ne-no_fuel 100 (new_reader (received (codes "5") ∷ []))
