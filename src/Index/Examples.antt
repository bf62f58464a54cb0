-- ===== src/Index/Examples.antt =====
-- The theorems on keys and encoded values at concrete keys and values.
use rgraph.Prelude.{All, zero, ℕ, suc, ◌-◌, ◌^◌, ◌≡◌, refl, some, List, [], ◌∷◌, ◌++◌, arith}
use rgraph.Prelude.Int.{negsuc}
use rgraph.Prelude.Bytes.{be_bytes}
use rgraph.Index.ValueCodec.{escape_byte, Value, string, int64, encode, decode, ValueType}
use rgraph.Index.ValueCodec.RoundTrip.{IsValue, decode-encode}
use rgraph.Index.Prefix.{common_prefix, compress_record}
use rgraph.Index.Prefix.RoundTrip.{record_of, through, keys_of, decompress_record-common_prefix}
use rgraph.Index.Property.{entry_key}
use rgraph.Index.Property.Oversize.{entry_key_oversize}

abbrev hello : Value
hello = string (104 ∷ 0 ∷ 105 ∷ [])

abbrev hello_bytes : List ℕ
hello_bytes = 4 ∷ 104 ∷ 0 ∷ 0xff ∷ 105 ∷ 0 ∷ []

hello-IsValue : IsValue hello
hello-IsValue = (omega arith, (omega arith, (omega arith, tt)))

encode-hello : encode hello (9 ∷ []) ≡ (9 ∷ hello_bytes, some 6)
unfolding encode escape_byte
encode-hello = refl

decode-encode_example : decode (hello_bytes ++ 7 ∷ []) ≡ some (hello, 6)
decode-encode_example =
    decode-encode hello (9 ∷ []) (9 ∷ hello_bytes) (7 ∷ []) 6 hello-IsValue (omega arith)
      encode-hello

abbrev minus_two : Value
minus_two = int64 (negsuc 1)

abbrev minus_two_bytes : List ℕ
minus_two_bytes = 2 ∷ be_bytes 8 (2 ^ 63 - 2)

abbrev zeros : ℕ → List ℕ
zeros zero = []
zeros (suc n) = 0 ∷ zeros n

entry_key_oversize_example :
    entry_key 3 ValueType.string (zeros 511) 8 ≡ entry_key 3 ValueType.null [] 8
entry_key_oversize_example = entry_key_oversize 3 8 (zeros 511) [] (omega arith)

abbrev page : List (List ℕ × List ℕ)
page = (1 ∷ 2 ∷ 3 ∷ [], 9 ∷ []) ∷ (1 ∷ 2 ∷ [], []) ∷ []

-- Two records of a page whose keys share two bytes
decompress_record-common_prefix_example :
    All
      (λ x.
        through
          (common_prefix (keys_of page))
          (compress_record (record_of x) (common_prefix (keys_of page)))
        ≡ some (record_of x))
      page
decompress_record-common_prefix_example =
    decompress_record-common_prefix (1 ∷ 2 ∷ 3 ∷ [], 9 ∷ []) ((1 ∷ 2 ∷ [], []) ∷ [])
      (omega arith, (omega arith, tt))
