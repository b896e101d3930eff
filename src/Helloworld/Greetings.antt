-- ===== src/Helloworld/Greetings.antt =====
-- examples/helloworld.cc: the messages of `client` and `handle_endpoint` up to the first bell, each side
-- with its `buffer`. UCX works as documented and no operation fails: a send ends without its receiver, a
-- receive waits until something has come, and each one gives what one send has sent, also where
-- `receive_mr` would take it in parts; the remote read and write act on the server's buffer.
pub mod Turns
use ucxpp.Base.{ℕ, zero, suc, List, [], ◌∷◌, ◌++◌, String, Bool, true, false, Option, none, some}

-- The statements. `sends_bytes` and `takes_bytes` are the sends of `send_mr` and the receives of
-- `receive_mr`; `sets` is `std::copy_n`; `prints` names the text in front of the buffer.
pub data Heading : Type 0 where
  received_message received_stream read_from_server wrote_to_server written_by_client : Heading

pub data Statement : Type 0 where
  sends_message takes_message sends_stream takes_stream : Statement
  takes_bytes gets puts rings hears : Statement
  sends_bytes : String → Statement
  sets : String → Statement
  prints : Heading → Statement

-- One of the two: the statements to come, its buffer, what `receive_mr` has received, and what it printed.
pub record Side : Type 0 where
  pub script : List Statement
  pub buffer : String
  pub received : List String
  pub printed : List (Heading × String)

-- What is under way to one side: tagged messages, what each send has put on the stream, and bells.
pub record Inbox : Type 0 where
  pub messages : List String
  pub stream : List String
  pub bells : ℕ

pub record Meeting : Type 0 where
  pub client : Side
  pub server : Side
  pub to_client : Inbox
  pub to_server : Inbox

-- One statement of a side: its buffer and that of the server, what it has received, and the boxes.
pub record Effect : Type 0 where
  pub buffer : String
  pub memory : String
  pub received : List String
  pub own : Inbox
  pub other : Inbox

abbrev pub first_of_list : List String → Option (String × List String)
first_of_list [] = none
first_of_list (x ∷ xs) = some (x, xs)

unfoldable pub effect : Statement → Effect → Option Effect
effect sends_message e =
    some (record e { other = record e.other { messages = e.other.messages ++ e.buffer ∷ [] } })
effect takes_message e = elim (first_of_list e.own.messages) [
  | none ↦ none
  | some (x, rest) ↦ some (record e { buffer = x; own = record e.own { messages = rest } })
]
effect sends_stream e =
    some (record e { other = record e.other { stream = e.other.stream ++ e.buffer ∷ [] } })
effect takes_stream e = elim (first_of_list e.own.stream) [
  | none ↦ none
  | some (x, rest) ↦ some (record e { buffer = x; own = record e.own { stream = rest } })
]
effect (sends_bytes bytes) e =
    some (record e { other = record e.other { stream = e.other.stream ++ bytes ∷ [] } })
effect takes_bytes e = elim (first_of_list e.own.stream) [
  | none ↦ none
  | some (x, rest) ↦
      some (record e { received = e.received ++ x ∷ []; own = record e.own { stream = rest } })
]
effect gets e = some (record e { buffer = e.memory })
effect puts e = some (record e { memory = e.buffer })
effect rings e = some (record e { other = record e.other { bells = suc e.other.bells } })
effect hears e = elim e.own.bells [
  | zero ↦ none
  | suc n ↦ some (record e { own = record e.own { bells = n } })
]
effect (sets text) e = some (record e { buffer = text })
effect (prints heading) e = some e

abbrev pub printing : Statement → Side → List (Heading × String)
printing (prints heading) side = side.printed ++ (heading, side.buffer) ∷ []
printing _ side = side.printed

-- One statement of the client, or of the server, whose buffer is the memory itself.
unfoldable pub client_says : Meeting → Option Meeting
unfolding effect
client_says m = elim m.client.script [
  | [] ↦ none
  | statement ∷ rest ↦
      let before : Effect = record {
        buffer = m.client.buffer;
        memory = m.server.buffer;
        received = m.client.received;
        own = m.to_client;
        other = m.to_server;
      } in
      elim (effect statement before) [
        | none ↦ none
        | some e ↦ some (record {
          client = record {
            script = rest;
            buffer = e.buffer;
            received = e.received;
            printed = printing statement m.client;
          };
          server = record m.server { buffer = e.memory };
          to_client = e.own;
          to_server = e.other;
        })
      ]
]

unfoldable pub server_says : Meeting → Option Meeting
unfolding effect
server_says m = elim m.server.script [
  | [] ↦ none
  | statement ∷ rest ↦
      let before : Effect = record {
        buffer = m.server.buffer;
        memory = m.server.buffer;
        received = m.server.received;
        own = m.to_server;
        other = m.to_client;
      } in
      elim (effect statement before) [
        | none ↦ none
        | some e ↦ some (record {
          client = m.client;
          server = record {
            script = rest;
            buffer = e.buffer;
            received = e.received;
            printed = printing statement m.server;
          };
          to_client = e.other;
          to_server = e.own;
        })
      ]
]

unfoldable pub says : Bool → Meeting → Option Meeting
unfolding client_says server_says
says true m = client_says m
says false m = server_says m

-- A chance to go on, for one side and for each of a schedule.
unfoldable pub said : Bool → Meeting → Meeting
unfolding says
said who m = elim (says who m) [ none ↦ m | some m' ↦ m' ]

unfoldable pub talk : List Bool → Meeting → Meeting
unfolding said
talk [] m = m
talk (who ∷ schedule) m = talk schedule (said who m)

-- `client`, from its first `tag_recv` to its first bell.
abbrev pub client_script : (world : String) → List Statement
client_script world =
    takes_message
    ∷ prints received_message
    ∷ sets world
    ∷ sends_message
    ∷ takes_stream
    ∷ prints received_stream
    ∷ sets world
    ∷ sends_stream
    ∷ takes_bytes
    ∷ takes_bytes
    ∷ takes_bytes
    ∷ gets
    ∷ prints read_from_server
    ∷ sets world
    ∷ puts
    ∷ prints wrote_to_server
    ∷ rings
    ∷ []

-- What `send_mr` sends: the address, the length of the packed key, and the key.
pub record Region : Type 0 where
  pub remote_addr : String
  pub rkey_length : String
  pub packed_rkey : String

-- `handle_endpoint`, whose buffer holds "Hello" from the start, up to the text behind the first bell.
abbrev pub server_script : (hello : String) → Region → List Statement
server_script hello region =
    sends_message
    ∷ takes_message
    ∷ prints received_message
    ∷ sets hello
    ∷ sends_stream
    ∷ takes_stream
    ∷ prints received_stream
    ∷ sets hello
    ∷ sends_bytes region.remote_addr
    ∷ sends_bytes region.rkey_length
    ∷ sends_bytes region.packed_rkey
    ∷ hears
    ∷ prints written_by_client
    ∷ []

abbrev pub empty_box : Inbox
empty_box = record { messages = []; stream = []; bells = 0 }

-- The two once they are connected; `garbage` is what the client's buffer holds.
abbrev pub connected : (hello world garbage : String) → Region → Meeting
connected hello world garbage region = record {
  client = record { script = client_script world; buffer = garbage; received = []; printed = [] };
  server = record {
    script = server_script hello region;
    buffer = hello;
    received = [];
    printed = [];
  };
  to_client = empty_box;
  to_server = empty_box;
}
