-- ===== src/Lib.antt =====
-- MyORM: an object-relational mapper in C++. A client puts a query together as a tree of clauses,
-- writes it into a protobuf message and sends it; the server reads the tree back, resolves the
-- fields in it to tables and columns, and prints SQL for PostgreSQL.
--
-- The parts that are modelled, and how they hang together:
--   Relation.Path       lib/relation/path.cpp, path.h: TMessagePath, the path of field numbers by which
--                       queries name messages, tables and columns. operator== is `eq`, operator< is
--                       `lt`, isAncestorOf is `is_ancestor_of`, and so on. The hash of strings that
--                       std::hash computes is a parameter.
--   Relation.Manager    lib/relation/relation_manager.cpp, message.cpp, field.cpp, base.cpp: what is read of
--                       the descriptors of protobuf (Relation.Descriptor, a record that stands for the
--                       generated pool), the constructor of TPrimitiveFieldInfo (Relation.Field), the
--                       registration of messages and their fields (Relation.Manager.Register) and the
--                       lookups with their caches, and the names of paths (Relation.Manager.Lookup). A
--                       shared pointer is the number of the object. The builder and the organizer take
--                       what they read of the manager as a record.
--   Requests            lib/requests/query.cpp, query.h: the clauses (Requests.Clause), attributes with
--                       their payload bytes (Requests.Attribute), the protobuf messages
--                       (Requests.Message), ToProto and FromProto of every class (Requests.Proto:
--                       `to_proto`, `read_clause`, `create_clause`, `query_to_proto`,
--                       `query_from_proto`). A clause in a message refers to its parts by their indices
--                       in one flat list. Requests.Factories has the operators and functions with which
--                       clients put expressions together, Requests.Statements those for statements, and
--                       Requests.Strings the functions of the same names on plain strings. What a sent
--                       query is read as, errors included, is described without indices in
--                       Requests.Proto.Receive.
--   QueryBuilder        lib/query_builder/builder_base.h, builder_base.cpp, builders/postgres.cpp:
--                       the clauses of SQL (QueryBuilder.Clause) and TPostgresBuilder, from the leaves
--                       (QueryBuilder.Postgres.Text) over expressions and column definitions to whole
--                       statements (QueryBuilder.Postgres.Build: `build_clause` is BuildClause). The
--                       stack of enclosing clauses is an argument.
--   QueryBuilder.Organizer  lib/query_builder/organizers/sql_organizer.cpp: OrganizeInsert, which makes one
--                       statement with a common list of columns from the subrequests of an insert
--                       (`place` is the body of its inner loop, `organize_insert` the whole), and
--                       OrganizeUpdate, which makes an UPDATE of each set of attributes
--                       (QueryBuilder.Organizer.Update: `organize_attributes` is the body of its loop).
--                       The hashes of paths and the primary keys of tables are parameters.
--                       QueryBuilder.Organizer.Transform has TransformClause, ExpandSelector and
--                       OrganizeSelect (`transform_clause`), OrganizeDelete and the transactions.
--   Common.GetOpts      lib/common/getopts.cpp, getopts.h: options, their two indices, Parse, Get, Has.
--   Common.RefCounter   lib/common/refcounted.cpp, refcounted.h, intrusive_ptr.h, weak_ptr.h: the two
--                       counters of an object, and the atomic operations of threads that have pointers
--                       to it as a step relation, the assignment of weak pointers among them, which
--                       does not count. Counts are natural numbers: that an int has 2^31 pointers to
--                       count is out of reach.
--   Common.Text         lib/common/format.cpp: EscapeSymbols and UnescapeSymbols, Trim and Split
--                       (Common.Text.Split), FormatValue and FormatOptions with ParseFromString
--                       (Common.Text.Options).
--   Common.Format       lib/common/format.h, format.cpp: FindPlaceHolder, FormatWithTupleSequential
--                       (`format_sequential`), FormatWithTuple (`format_indexed`), Format, and the
--                       handlers of bool, strings, containers and pairs (Common.Format.Handlers). An
--                       argument is what its handler writes, given the options.
--   Ipc                 lib/ipc/decode_encode.cpp, decode_encode.h: the encoders and decoders of temperatures.
--                       Ipc.Encoder is EncodeBinaryTemperature and WriteTemperature, Ipc.Decoder and
--                       Ipc.TextDecoder are the loops that look for a packet and take it off the buffer,
--                       Ipc.Reader is ReadTemperature. A read outside the buffer is a fault, and so is a
--                       cast to an integer type that has not the value. Ipc.Queue describes the buffer
--                       as the queue of the packets that wait in it.
--   Rpc.Http            lib/rpc/http_server.cpp, http_server.h: Split, Trim and std::getline (Rpc.Http.Text), the
--                       constructor of TRequest (`read_request`), TResponse with its setters, the
--                       names of statuses and FormatResponse (Rpc.Http.Response), and the loop of
--                       ProcessClient that receives (Rpc.Http.Receive).
--   Common.ThreadPool   lib/common/threadpool.cpp, threadpool.h: TThreadPool, as a relation between states of
--                       the queue and of all threads. What happens under the mutex is one step.
--   Common.PeriodicExecutor   lib/common/periodic_executor.cpp, and TErrorOr with the task that TInvoker makes
--                       of a function in threadpool.h: the executor is a relation between its states.
--   Prelude             lists, maps, results and fixed-width integers that the parts share.
--
-- How the code is rendered. A char is a number below 256 and a std::string a list of them; uint32
-- and uint64 values are natural numbers, int32 and int64 values are ℤ, and Prelude.Int converts
-- between these and bit patterns. Values of float and double are bit patterns, and the conversions
-- and the prints of them are parameters; in Ipc the operations on double are the fields of a
-- record, Floating. A function that may throw returns an Outcome, with a constructor for each kind
-- of exception; the text of an exception is left out. A std::shared_ptr or an intrusive pointer to
-- a clause is the clause, and `null` where it may hold nothing: no code that is modelled changes a
-- clause after others can see it. A std::map is an association list.
--
-- Bounds. CreateClauseFromProto recurs for as long as the message refers to further clauses, so
-- `create_clause` takes fuel: a message whose references point backwards needs one more than the
-- index that is read, and a message that refers to itself uses up any amount. The digits of a
-- number are printed with fuel one above the number, which is more than it has digits. Split,
-- ParseFromString and the loops of Format go on from a position that they compute, and take one
-- more than the text has bytes as fuel, and so do Split and the loop over header lines in
-- Rpc.Http. Process and FindPrimaryFields recur into the messages that a message holds, and take
-- as fuel more than the depth of the messages; the loop of GetObjectWithAncestors takes one more
-- than the objects that were made. All other functions are by structural recursion.
--
-- Not modelled: what else of the query organizer reads the relation manager, and its iterators
-- over fields; the format of numbers and of time points; the handlers that a request is matched
-- with by regular expressions, and the services; futures; sockets, libpq, logging and
-- configuration, which are calls of the system or of libraries; generated code.
pub mod Common
pub mod Ipc
pub mod Prelude
pub mod QueryBuilder
pub mod Relation
pub mod Requests
pub mod Rpc
mod Tests
