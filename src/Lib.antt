-- ===== src/Lib.antt =====
-- A verification library for rec, a system that distributes WebAssembly jobs and their data over
-- a network of nodes. The program has two forms. In the first, rec/dtn, nodes exchange bundles
-- through the daemon of a delay-tolerant network; in the second, rec/rest, they call one another
-- over HTTP.
--
-- Prelude: Booleans, texts as lists of code points, association lists for dicts, and Python's
-- exceptions. A method that changes an object and may raise has type Exec: it returns a result or
-- an exception, and in both cases the state that it leaves.
--
-- Dtn/Eid (rec/dtn/eid.py): class EID. normalize is EID._normalize, which every construction runs
-- through; dtn, ipn, node and service are the methods of these names. Dtn/Eid/Decimal has int(_, 10)
-- and the printing of numbers, with Python's limit of 4300 digits; the fuel of the printer is the
-- number plus one, which is enough since every step divides by ten. What int() makes of digits
-- outside ASCII is the parameter to_ascii.
-- Dtn/Message (rec/dtn/messages.py): messages and bundles; Dtn/Message/Wire has dictify, which
-- deletes from the object itself, and serialize, Dtn/Message/Reader has deserialize, over the
-- parameters packb and unpackb of msgpack. A class is strict about the types of its arguments
-- here, where Python takes any object.
-- Dtn/Storage (rec/dtn/storage.py): named data with a database of names and a directory of blobs.
-- SHA-1 is the parameter sha1.
-- Dtn/Job (rec/dtn/job.py): capabilities, job descriptions and the data that a job requires.
-- Dtn/Node (rec/dtn/node.py): the state that all nodes share and broker discovery. Dtn/Node/Frame
-- has the framing of messages on the socket, Dtn/Node/Rounds sending, fetching and one round of a
-- bundle loop. Sockets are actions on an arbitrary state of the outside world.
-- Dtn/Broker (rec/dtn/broker.py), Dtn/Datastore (rec/dtn/datastore.py): the state of these nodes
-- and their handlers; round is one pass of the loop that runs every ten seconds, in which an
-- exception is logged and ends the pass.
-- Dtn/Executor (rec/dtn/executor.py): bundle handling and the queue of pending jobs; the rounds of
-- the search for a runnable job are as many as jobs are pending, as in the source.
-- Dtn/Executor/Environment prepares a job's directory, Dtn/Executor/Collect takes its results,
-- and Dtn/Executor/Run is the scheduler.
-- Dtn/Client (rec/dtn/client.py): the search for a broker, and the requests with the wait for their
-- replies; the loops run on fuel.
-- Rest/Model (rec/rest/model.py), Rest/Service (names from rec/rest/nodes/node.py),
-- Rest/ExecutorBroker (rec/rest/nodes/brokers/executorbroker.py): what the broker knows of
-- executors, and its scheduler as a step function; its Events are what happens around it, but not the
-- registration of executors.
-- Rest/Cache (rec/rest/nodes/brokers/datastorecache.py): the data broker's memory of listed pages.
-- Rest/Names (prevent_breakout of rec/util/fs.py): how names become paths, with the functions of
-- POSIX os.path that it calls; expanduser and expandvars are parameters.
-- Rest/Job (rec/rest/job.py and the uploads of rec/rest/nodes/client.py): a client's uploads and the
-- job that it sends; Rest/Job/Internal is the executor's view of that job, Rest/Job/Files its
-- downloads, globs and named results over a broker that is a parameter.
-- Rest/Datastore (rec/rest/nodes/datastore.py): Rest/Datastore/File is class File, where the calls
-- of store and delete interleave as steps, Rest/Datastore/Endpoints the endpoints.
-- Rest/DataBroker (rec/rest/nodes/brokers/databroker.py): the search through the pages of all
-- datastores; its fuel is enough if it is more than a datastore has names.
-- Rest/Retry (check_and_retry of rec/rest/nodetypes/broker.py), Rest/Client (run_job and the results
-- of rec/rest/nodes/client.py).
-- Rest/ExecutorNode (rec/rest/nodes/executor.py): registration with a broker, the start of a job
-- (Rest/ExecutorNode/Start), and how the result of a job is delivered or stored; the registration
-- runs on fuel, eleven rounds of which are enough to give up.
-- Rest/Listeners (rec/rest/nodes/zeroconf_listeners): the nodes that were discovered.
-- Tests: runs at concrete inputs.
--
-- A node's lock makes each critical section one step; the interleavings of handlers are sequences
-- of such steps. A turn of the DTN executor's scheduler is one step as well, though the program runs
-- and sends outside its lock, so that handlers may add jobs meanwhile; and psutil is asked once for
-- a search through the queue, where the program asks it again for each job. Not modelled: wasmtime, the file system beyond reads, writes and directories,
-- psutil, HTTP, threads, logging and the command lines; and, of rec/rest, the run of a job by the
-- executor, the zip file of its results and the loop of the client over an execution plan.
pub mod Prelude
pub mod Dtn
pub mod Rest
pub mod Tests
