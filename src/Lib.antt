-- ===== src/Lib.antt =====
-- ihmc-yovariables-cpp: variables that a controller registers by name and that a ring buffer records,
-- so that their history can be scrolled, cropped, cut, thinned and processed.
--
-- How the parts interact: a buffer (`YoBuffer`) has one entry for each variable
-- (`YoBufferVariableEntry`), which holds its samples in an array as long as the buffer and caches
-- their bounds (`YoBufferBounds`). The buffer moves a current index between an in-point and an
-- out-point; a move reads the entries into the variables, a write does the converse. Key points
-- (`KeyPointsHandler`) mark indices and tell listeners. Variables are found through namespaces
-- (`YoNamespace`), paths of names with separators, in a tree of registries (`YoRegistry`): a registry
-- holds variables and each variable points at its registry, and a call that changes one side calls
-- the other. Parameters are variables that a reader gives their values. Filters are variables that
-- compute their value.
--
-- The files:
--   Common: shared names, lists and integers over the native numbers, faults, doubles.
--   Variables: what the buffer calls of include/ihmc/yovariables/variable/yo_variable.h.
--   Buffer/KeyPoints: src/buffer/key_points_handler.cpp, a function for each method of the class.
--   Buffer/Array: `AtomicDoubleArray` of src/buffer/yo_buffer_variable_entry.cpp, and its copy loops.
--   Buffer/Bounds: src/buffer/yo_buffer_bounds.cpp.
--   Buffer/Entry: src/buffer/yo_buffer_variable_entry.cpp.
--   Buffer/Ring: src/buffer/yo_buffer.cpp and the default methods of
--     include/ihmc/yovariables/buffer/interfaces/yo_buffer_reader.h. Tick moves, reads and writes;
--     Resize crops, cuts, shifts and thins; Entries keeps the entries; Process is `applyProcessor`.
--   Registry/Names: the names of src/tools/yo_tools.cpp.
--   Registry/Namespace: src/registry/yo_namespace.cpp.
--   Registry/VariableList: src/registry/yo_variable_list.cpp.
--   Registry/Objects: the store of registries and variables, the state of src/registry/yo_registry.cpp
--     and src/variable/yo_variable.cpp, and include/ihmc/yovariables/registry/
--     yo_registry_restriction_level.h.
--   Registry/Tree: listeners, restriction levels and children of src/registry/yo_registry.cpp.
--   Registry/Calls: the variables of src/registry/yo_registry.cpp with `setRegistry` and `destroy` of
--     src/variable/yo_variable.cpp, which call each other, and the destruction of a registry.
--   Registry/Search: the searches of src/registry/yo_registry.cpp, src/tools/yo_search_tools.cpp and
--     include/ihmc/yovariables/registry/yo_variable_holder.h.
--   Filters: glitch_filtered_yo_boolean.cpp, glitch_filtered_yo_integer.cpp, delayed_yo_double.cpp
--     and simple_moving_average_filtered_yo_variable.cpp of src/filters.
--   Variable: Cell is the assignment of a value that all variables share; Integer, Long, Boolean and
--     Double are yo_integer.cpp, yo_long.cpp, yo_boolean.cpp and yo_double.cpp of src/variable, and
--     Enum is include/ihmc/yovariables/variable/yo_enum.h.
--   Parameters: yo_parameter.cpp, integer_parameter.cpp, parameter_data.cpp,
--     abstract_parameter_reader.cpp and single_parameter_reader.cpp of src/parameters.
--   Tests: runs on small inputs.
-- A method is the function of the same name in snake case; its object is the last argument and part
-- of the result. An overload has a suffix (`crop_in_out` is `cropBuffer()`).
--
-- Conventions: an `Option` is a step that may fault; `none` is undefined behaviour (an access out of
-- bounds, a division by zero, a signed overflow where the source can reach one) or an exception.
-- Doubles are a parameter with the operations that the source uses; where a theorem needs laws of
-- IEEE 754 it takes them as a hypothesis. An `int` of the buffer has no width, as its values are
-- bounded by the buffer's size; where a client's step is added to an index, a sum that does not fit
-- 32 bits is a fault. The store of the variables' values is a parameter with an interface.
-- Strings are lists of bytes, and `std::tolower` is a parameter. So are `std::lround` and the reading
-- of numbers, and the lists of constants that magic_enum gives for an enum type.
--
-- Registries and variables are objects of a store, named by their addresses. A call that changes the
-- store gives an outcome: a result, or an exception together with the store as it was when the
-- exception was thrown, since the source writes before it throws. The calls of listeners are a log;
-- a listener is taken not to call back.
--
-- Fuel: `applyProcessor` takes fuel for its loop, and a run says whether it has ended. `splitName`
-- takes the length of the name, which bounds the number of separators. A walk of the registries takes
-- the number of levels that it may go, which is enough if it is above the tree's depth. The calls of
-- registries and variables into each other take a bound on their nesting: five, as the deepest chain
-- is `addVariable`, `removeVariable`, `setRegistry`, `removeVariable`, `setRegistry`, the last of
-- which returns at once. Every other loop is structural.
--
-- Not modelled: the interleavings of the entry's atomic operations (every one is that of a single
-- thread), the searches over the buffer's map from names to entries and its time variable,
-- the filter by regular expressions, the strings of numbers, the bounds, descriptions and listeners of
-- a single variable, duplicates of parameters, the filters that are formulas on
-- floating-point numbers, the writing of parameters and their XML files, the factories, and printing.
pub mod Common
pub mod Variables
pub mod Parameters
pub mod Variable
pub mod Buffer
pub mod Registry
pub mod Filters
pub mod Tests
