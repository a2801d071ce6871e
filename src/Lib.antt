-- ===== src/Lib.antt =====
-- The SatOS payload SDK in Python: the library with which a payload application talks to its
-- controller, and the proxy agent that carries the connections of a development machine.
--
-- An application uses the framework, which starts its sequences on threads, answers the
-- controller's requests and shuts the application down; the framework uses the client, whose
-- functions call the controller and whose service receives the controller's calls, over a channel
-- that is made from the settings of the SDK's environment; its params are converted to messages,
-- and back, by generated types. Beside these stand the GPIO and CAN functions, and a sample
-- application that uses all of these. The proxy agent runs on both ends of a permanent connection,
-- watches its sockets, and gives each readable socket to a relay that owns it, or cuts its data
-- into packets. The types generator, a program of its own, makes the types and conversions that the
-- client uses, the messages and services of the wire, and the C++ side of both, from one interface
-- file.
--
-- Where the parts are:
--   Prelude       the names, tests, lists and integers that all parts use.
--   Exec          Python methods: a state and a value or an exception. What was written before an
--                 exception stays written.
--   Framework     lib/python/satos_payload_sdk/app_framework.py. Stoppable is the class of that name;
--                 Metrics is PayloadMetrics; App is PayloadApplication with SequenceHandler: one event
--                 is one step of one thread between two points where another thread may act. Requests is
--                 ChannelClient: its events are the steps between two points where a lock may have to be
--                 waited for, and the two steps of the unlocked count of payload_power_control; Requests/Counter
--                 is _get_next_cid and payload_power_control by themselves,
--                 Requests/Staging is stage_file_download. Connection is _connect and _disconnect,
--                 over the channel and the calls of Client.
--   Client        lib/python/satos_payload_sdk/antaris_api_client.py: Channel is
--                 api_pa_pc_create_channel_common, Calls the functions that call the controller,
--                 Dispatch is AntarisChannel and PCToAppService. Upload is File_Stage with
--                 azure_file_upload of lib/python/satos_payload_sdk/antaris_file_download.py.
--   Environment   lib/python/satos_payload_sdk/antaris_sdk_environment.py; Environment/Common is
--                 antaris_api_common.py.
--   Gpio, Can     lib/python/satos_payload_sdk/antaris_api_gpio.py and antaris_api_can.py.
--   Example       examples/app-python/example_app.py over the parts of the library: CanBus and Gpio are
--                 the sequences that test the bus and the pins, Sequences the others, Start is new
--                 and set_payload_values.
--   SocketProxy   lib/proxy/proxy-agent/socket_proxy.py: Pair is ProxySocket with its subclasses,
--                 HalfPerma the class of that name, Net the sockets and the network, Tunnel two
--                 relays in a row.
--   Types         lib/python/satos_payload_sdk/gen/antaris_api_types.py: App are its classes, Text their
--                 __str__, ToApp and ToPeer the conversions from and to the messages of
--                 defs/gen/proto/antaris_api.proto, which are Peer. Kinds and Fields put the 18 messages
--                 into one family; Calls are the functions of the client with the conversion of
--                 their params, and Answers the ids that the framework keeps for its answers.
--   Agent         lib/proxy/proxy-agent/agent.py: Options is parse_opts, Packets is handle_udp, Loop the
--                 permanent socket, the action map, and what an exception on a socket does, and
--                 Loop/Events handle_readable and worker, Loop/Start the main program;
--                 HexDump is lib/proxy/proxy-agent/hexdump.py, with a reader of dumps in its children.
--   Generator     tools/types-generator, the program that prints the types and services of the
--                 interface file for each language. Interface is parser_interface.py, with
--                 Interface/Phases for XMLToCode.go and Interface/Paths for the names of files; Py,
--                 Proto and Cpp are the generators of that name, Main is main.py, with Main/Run for
--                 its files. What is printed is a text: a generator is a run that adds to the text
--                 of an open file, and Text has the functions on texts that they share. Cpp/Fields
--                 is CPPField, Cpp/Functions the callbacks and functions of the header, Cpp/Files
--                 and Proto/Files which generator writes where.
--
-- A definition has the name of the function or method that it models. The statements about a part
-- stand in its child modules, named for what they are about, and concrete runs in modules called
-- Tests. Code that is not part of the repository is a parameter: the operating system's sockets, the
-- remote calls, the CAN bus, the cloud share, the XML library, getopt, Python's `int`, the white space
-- of a pattern.
--
-- Loops are recursions on the data that they go through. The loop of handle_udp runs on fuel, one
-- more than the bytes that it is given: each round that goes on takes at least one byte off them,
-- so the fuel is never used up when the handler forwards every packet. The rounds of worker are a list of what
-- `select` answers: its runs are the beginnings of the agent's. The rows of a hex dump run on fuel,
-- the length of the buffer, and the pairs of pins of the sample on the number of pins: a round
-- takes one of them at least. Counters and correlation ids are unbounded, as Python's are; which of
-- them a message can carry is part of Types, and the width of a metrics counter is a parameter.
--
-- Not modelled: when the replies to the controller's calls reach it (a handler's value is its reply);
-- failures of accept; wires between the pins of an adapter; the log; the stubs that the protobuf and gRPC compilers print; of the types
-- generator the validation against the schema, the log, and the making of directories; the C++
-- library; the third-party cJSON; the other examples and the sequences of the sample that only log;
-- documentation and packaging. The case of letters changes in ASCII only, where the name of a
-- service and an include guard are made from the name of a file.
mod Prelude
pub mod Exec
pub mod SocketProxy
pub mod Agent
pub mod Types
pub mod Framework
pub mod Client
pub mod Environment
pub mod Gpio
pub mod Can
pub mod Example
pub mod Generator
