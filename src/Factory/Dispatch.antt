-- ===== src/Factory/Dispatch.antt =====
-- A type that travels in a header: libs/comm/src/messages/message_header.cpp on both ends, and the
-- factory of the receiver. `std::string` is a list of bytes in the header and a text in the factory;
-- `text` is the one as the other.
use cmake_sample.Common.{ℕ, ◌≡◌, ◌≢◌, refl, List, [], String, ok}
use cmake_sample.Header.{Header, Host, encode_header, decode_header}
use cmake_sample.Header.Endian.{IsHost}
use cmake_sample.Header.Layout.{IsValid, frame}
use cmake_sample.Header.Nul.{IsNulFree}
use cmake_sample.Header.RoundTrip.{decode_header-encode_header}
use cmake_sample.Factory.{MessageClass, create_message, register_all, no_creators}
use cmake_sample.Factory.Registration.{In, IsDistinct, latest_of_In, create_message-register_all}

module _ (host : Host) (laws : IsHost host) (text : List ℕ → String) (H M : Type 0) where
  -- A header names the class of its message. Let the classes that are registered have different
  -- types, and let a valid header have the type of one of them, without a NUL in it. Then the header is encoded without an exception, whatever header
  -- receives the bytes decodes them without one, and of the type that it then has the factory makes a message of this very class.
  pub dispatch :
      (cs : List (MessageClass H M)) (c : MessageClass H M)
      → IsDistinct H M cs
      → In H M c cs
      → (h : Header) → IsValid h
      → h.message_type ≢ []
      → IsNulFree h.message_type
      → text h.message_type ≡ c.type_name
      → (g : Header) (heap : H)
      → (e d : Header) × (encode_header host h ≡ ok e)
        × (decode_header host (record g { bytes = e.bytes }) ≡ (d, ok tt))
        × (create_message H M (text d.message_type) (register_all H M cs (no_creators H M)) heap
            ≡ c.make_shared heap)
  dispatch cs c apart there h valid named free same g heap =
      let (sends, receives) = decode_header-encode_header host laws h valid named free g in
      (
        record h { bytes = frame h.message_type h.message_length h.message_version },
        _,
        sends,
        receives,
        rw
            (
              same,
              create_message-register_all H M c.type_name cs heap,
              latest_of_In H M c cs apart there,
            )
            refl,
      )
